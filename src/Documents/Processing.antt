-- ===== src/Documents/Processing.antt =====
-- packages/domain/document_processor.py, `process_document`: one call, and one after another.
use operational_intelligence.Prelude.{
  ℕ, ◌≡◌, refl, ap, ◌∙◌, Bool, not, Option, some, none, List, [], ◌∷◌, ◌++◌, ◌==◌, length,
  filter_by, arith, Bool-cases, inl, inr,
}
use operational_intelligence.Documents.{
  Text, Chunk, Document, Store, summary, location, total_tokens, chunk_rows, mark_chunked,
  find_document, process_document,
}
use operational_intelligence.Documents.Chunks.{windows, numbered, split_into_chunks-windows}

find-mark :
    (id : ℕ) (d : Document) (documents : List Document)
    → find_document id documents ≡ some d
    → find_document id (mark_chunked id documents) ≡ some (record d { status = "chunked" })
find-mark id d [] e = cc e
find-mark id d (x ∷ documents) e = elim (Bool-cases (x.id == id)) [
  | inl h ↦
      rw (h, h)
        (ap (λ o. elim o [ none ↦ none | some y ↦ some (record y { status = "chunked" }) ])
          (rw h at e))
  | inr h ↦ rw (h, h) (find-mark id d documents (rw h at e))
]

module _ (is_blank : Text → Bool) (default : Text) (download : Text × Text → Option (List ℕ))
    (decode : List ℕ → Text) where
  -- The chunks that a text is stored as.
  abbrev pub stored_chunks : Text → List Chunk
  stored_chunks text =
      numbered 0 (filter_by (λ s. not (is_blank s)) (windows (length text) 1000 800 text))

  module _ (id tenant : ℕ) (d : Document) (content : List ℕ) (s : Store) where
    run_document :
        find_document id s.documents ≡ some d
        → download (location default d.file_key) ≡ some content
        → process_document is_blank default download decode id tenant s ≡ (
          summary
              (length (stored_chunks (decode content)))
              (total_tokens (stored_chunks (decode content))),
          record {
            documents = mark_chunked id s.documents;
            chunks = s.chunks ++ chunk_rows id tenant (stored_chunks (decode content));
          },
        )
    unfolding process_document
    run_document found fetched =
        rw
          (
            found,
            fetched,
            (split_into_chunks-windows is_blank 1000 200 (decode content) (omega arith)).0,
          )
          refl

  module _ (id tenant : ℕ) (d : Document) (content : List ℕ) (s : Store) where
    -- A document whose file is there is stored as its chunks that are not blank, with their count, on
    -- every text; and a second call stores all of them once more under the same numbers, as it
    -- finds the document with its new status.
    pub process_document-again :
        find_document id s.documents ≡ some d
        → download (location default d.file_key) ≡ some content
        → let rows = chunk_rows id tenant (stored_chunks (decode content)) in
          let once = process_document is_blank default download decode id tenant s in
          let twice = process_document is_blank default download decode id tenant once.1 in
          (once.0
            ≡ summary
                (length (stored_chunks (decode content)))
                (total_tokens (stored_chunks (decode content))))
          × (twice.1.chunks ≡ (s.chunks ++ rows) ++ rows)
    process_document-again found fetched =
        let rows = chunk_rows id tenant (stored_chunks (decode content)) in
        let marked : Store = record {
          documents = mark_chunked id s.documents;
          chunks = s.chunks ++ rows;
        } in
        let first = run_document id tenant d content s found fetched in
        let second =
          run_document id tenant (record d { status = "chunked" }) content marked
            (find-mark id d s.documents found) fetched in
        (
          ap (λ r. r.0) first,
          ap (λ r. (process_document is_blank default download decode id tenant r.1).1.chunks) first
              ∙ ap (λ r. r.1.chunks) second,
        )
