-- ===== src/Copilot/Sources.antt =====
-- packages/ai/ai_service.py, `_extract_sources`: each document once.
use operational_intelligence.Prelude.{
  ℕ, ◌≡◌, refl, String, Bool, true, false, List, [], ◌∷◌, str_eq, eq_iff, str_in, filter_by, any_of,
  length, Bool-cases, inl, inr, arith, if◌then◌else◌,
}
use operational_intelligence.Copilot.{KnowledgeChunk, Source, source_id_of, extract_sources}

abbrev pub is_about : {Score : Type 0} → String → KnowledgeChunk Score → Bool
is_about id chunk = str_eq (source_id_of chunk) id

-- how often a document is among the sources
abbrev pub count_of : {Score : Type 0} → String → List (Source Score) → ℕ
count_of {Score} id sources =
    length (filter_by (λ (s : Source Score). str_eq s.document_id id) sources)

-- A document that was seen gives no source, any other one exactly where a chunk is about it.
abbrev once : Bool → Bool → ℕ
once true found = 0
once false found = if found then 1 else 0

path_of : (s t : String) → str_eq s t ≡ true → s ≡ t
path_of s t h = ground (arith, h, eq_iff s t)

str_in-own : (d id : String) (seen : List String) → str_eq d id ≡ true → str_in id (d ∷ seen) ≡ true
str_in-own d id seen h = rw (str_in, h) refl

str_in-apart :
    (d id : String) (seen : List String)
    → str_eq d id ≡ false
    → str_in id (d ∷ seen) ≡ str_in id seen
str_in-apart d id seen h = rw (str_in, h) refl

extract-count :
    {Score : Type 0} (id : String) (seen : List String) (chunks : List (KnowledgeChunk Score))
    → str_eq id "" ≡ false
    → count_of id (extract_sources seen chunks)
      ≡ once (str_in id seen) (any_of (is_about id) chunks)
unfolding extract_sources
extract-count id seen [] h = elim (Bool-cases (str_in id seen)) [
  | inl e ↦ rw e refl
  | inr e ↦ rw e refl
]
extract-count id seen (c ∷ chunks) h = elim (Bool-cases (str_eq (source_id_of c) "")) [
  | inl blank ↦
      let apart : is_about id c ≡ false =
        ground (arith, h, eq_iff (source_id_of c) "", eq_iff (source_id_of c) id, eq_iff id "") in
      rw (extract_sources, blank, apart, extract-count id seen chunks h) refl
  | inr named ↦ elim (Bool-cases (str_in (source_id_of c) seen)) [
    | inl old ↦ elim (Bool-cases (is_about id c)) [
      | inl own ↦
          let seen_id : str_in id seen ≡ true = rw (← path_of (source_id_of c) id own) old in
          rw (extract_sources, named, old, own, extract-count id seen chunks h, seen_id) refl
      | inr apart ↦ rw (extract_sources, named, old, apart, extract-count id seen chunks h) refl
    ]
    | inr fresh ↦ elim (Bool-cases (is_about id c)) [
      | inl own ↦
          let new_id : str_in id seen ≡ false = rw (← path_of (source_id_of c) id own) fresh in
          rw
            (
              extract_sources,
              named,
              fresh,
              own,
              extract-count id ((source_id_of c) ∷ seen) chunks h,
              str_in-own (source_id_of c) id seen own,
              new_id,
            )
            refl
      | inr apart ↦
          rw
            (
              extract_sources,
              named,
              fresh,
              apart,
              extract-count id ((source_id_of c) ∷ seen) chunks h,
              str_in-apart (source_id_of c) id seen apart,
            )
            refl
    ]
  ]
]

-- A document is a source exactly once where a chunk has its id, and not at all otherwise.
pub extract_sources-once :
    {Score : Type 0} (id : String) (chunks : List (KnowledgeChunk Score))
    → str_eq id "" ≡ false
    → count_of id (extract_sources [] chunks) ≡ (if any_of (is_about id) chunks then 1 else 0)
extract_sources-once id chunks h = extract-count id [] chunks h
