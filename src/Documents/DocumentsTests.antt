-- ===== src/Documents/DocumentsTests.antt =====
-- A text of seven characters in chunks of four that overlap by two.
use operational_intelligence.Prelude.{
  ℕ, ◌≡◌, refl, Bool, false, Option, some, List, [], ◌∷◌, ◌++◌, map, take, codes, arith,
}
use operational_intelligence.Documents.{
  Text, chunk_of, split_into_chunks, Document, Store, summary, chunk_rows, process_document,
}
use operational_intelligence.Documents.Processing.{stored_chunks, process_document-again}
use operational_intelligence.Documents.Chunks.{windows, concat, split_into_chunks-windows}

abbrev no_blanks : Text → Bool
no_blanks s = false

split_into_chunks-windows_example :
    (split_into_chunks no_blanks 4 2 (codes "abcdefg")
      ≡ some (
          chunk_of 0 (codes "abcd")
          ∷ chunk_of 1 (codes "cdef")
          ∷ chunk_of 2 (codes "efg")
          ∷ chunk_of 3 (codes "g")
          ∷ []))
    × (concat (map (take 2) (windows 7 4 2 (codes "abcdefg"))) ≡ codes "abcdefg")
unfolding windows
split_into_chunks-windows_example =
    split_into_chunks-windows no_blanks 4 2 (codes "abcdefg") (omega arith)

-- Without an advance the loop does not end.
endless : split_into_chunks no_blanks 2 2 (codes "abc") ≡ Option.none
unfolding split_into_chunks
endless = refl

abbrev report : Document
report = record { id = 3; file_key = codes "files/a.txt"; file_type = "txt"; status = "uploaded" }

abbrev store : Store
store = record { documents = report ∷ []; chunks = [] }

abbrev download : Text × Text → Option (List ℕ)
download place = some (codes "eight...")

process_document-again_example :
    let rows =
      chunk_rows 3 1 (stored_chunks no_blanks (codes "oie") download (λ c. c) (codes "eight...")) in
    let once = process_document no_blanks (codes "oie") download (λ c. c) 3 1 store in
    let twice = process_document no_blanks (codes "oie") download (λ c. c) 3 1 once.1 in
    (once.0 ≡ summary 1 2) × (twice.1.chunks ≡ rows ++ rows)
unfolding windows
process_document-again_example =
    process_document-again no_blanks (codes "oie") download (λ c. c) 3 1 report (codes "eight...")
      store refl refl
