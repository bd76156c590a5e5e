-- ===== src/Runner/Texts.antt =====
-- What the texts of a task should be, apart from `extractText` and `processEvent` of
-- agentpipeline-operator/internal/runner/a2a_runner.go.
use cluster.Prelude.{
  Str, is_empty, none, some, List, [], ◌∷◌, ◌++◌, append-nil, Option-cases, inl, inr, ◌≡◌, refl,
  sym, ap, ◌∙◌, if◌then◌else◌,
}
use cluster.Runner.Strings.{join_lines}
use cluster.Runner.Sse.{TextPart, TaskResult, part_texts, extract_text, artifact_texts}

-- A text, unless it is empty.
abbrev pub unless_empty : Str → List Str
unless_empty [] = []
unless_empty (b ∷ r) = (b ∷ r) ∷ []

-- The texts of the parts that have one, in order.
abbrev pub texts_of : List TextPart → List Str
texts_of [] = []
texts_of (p ∷ ps) = unless_empty p.text ++ texts_of ps

abbrev pub below : List Str → Str
below [] = []
below (x ∷ xs) = b'\n' ∷ (x ++ below xs)

-- The texts with a newline between any two.
abbrev pub lines_of : List Str → Str
lines_of [] = []
lines_of (x ∷ xs) = x ++ below xs

-- The text of the message of a task, if it has one.
abbrev pub message_text : TaskResult → Str
message_text t = elim t.status.message [ none ↦ [] | some m ↦ lines_of (texts_of m.parts) ]

-- The texts of the artifact of a task, if it has one.
abbrev pub texts_in : TaskResult → List Str
texts_in t = elim t.artifact [ none ↦ [] | some a ↦ texts_of a.parts ]

-- The texts of all artifacts, in order.
abbrev pub all_texts : List TaskResult → List Str
all_texts [] = []
all_texts (t ∷ ts) = texts_in t ++ all_texts ts

-- The texts, line by line, stand in for an empty output.
abbrev pub or_texts : Str → List Str → Str
or_texts output texts = if is_empty output then lines_of texts else output

unless_empty-append :
    (x : Str) (rest : List Str) → (if is_empty x then rest else x ∷ rest) ≡ unless_empty x ++ rest
unless_empty-append [] rest = refl
unless_empty-append (b ∷ r) rest = refl

part_texts-texts_of : (ps : List TextPart) → part_texts ps ≡ texts_of ps
unfolding part_texts
part_texts-texts_of [] = refl
part_texts-texts_of (p ∷ ps) =
    unless_empty-append p.text (part_texts ps)
    ∙ ap (λ rest. unless_empty p.text ++ rest) (part_texts-texts_of ps)

pub join_lines-lines_of : (xs : List Str) → join_lines xs ≡ lines_of xs
unfolding join_lines
join_lines-lines_of [] = refl
join_lines-lines_of (x ∷ []) = sym (append-nil x)
join_lines-lines_of (x ∷ y ∷ r) = ap (λ u. x ++ (b'\n' ∷ u)) (join_lines-lines_of (y ∷ r))

pub extract_text-message_text : (t : TaskResult) → extract_text t ≡ message_text t
unfolding extract_text
extract_text-message_text t = elim (Option-cases t.status.message) [
  | inl h ↦ rw (h, extract_text) refl
  | inr (m, h) ↦
      rw (h, extract_text)
        (join_lines-lines_of (part_texts m.parts) ∙ ap lines_of (part_texts-texts_of m.parts))
]

pub artifact_texts-texts_in : (t : TaskResult) → artifact_texts t.artifact ≡ texts_in t
unfolding artifact_texts
artifact_texts-texts_in t = elim (Option-cases t.artifact) [
  | inl h ↦ rw (h, artifact_texts) refl
  | inr (a, h) ↦ rw (h, artifact_texts) (part_texts-texts_of a.parts)
]
