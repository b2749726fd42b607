-- ===== src/Documents.antt =====
-- packages/domain/document_processor.py, class `DocumentProcessor`, over the rows of documents and of
-- their chunks. Object storage and the decoding of bytes are parameters. Texts are lists of code points, of
-- which the loop keeps what lies behind `start`; `is_blank` says whether strip() leaves nothing. The
-- overlap is at most the size of a chunk, as in every call.
pub mod Chunks
pub mod Processing
pub mod DocumentsTests
use operational_intelligence.Prelude.{
  ℕ, zero, suc, ◌+◌, ◌-◌, ◌/◌, Bool, true, false, Option, some, none, List, [], ◌∷◌, take, drop,
  length, if◌then◌else◌, ◌++◌, String, ◌==◌, map,
}

abbrev pub Text : Type 0
Text = List ℕ

pub record Chunk : Type 0 where
  pub chunk_index : ℕ
  pub content : Text
  pub token_count : ℕ

abbrev pub chunk_of : (chunk_index : ℕ) → Text → Chunk
chunk_of chunk_index content = record {
  chunk_index = chunk_index;
  content = content;
  token_count = length content / 4;
}

module _ (is_blank : Text → Bool) (chunk_size overlap : ℕ) where
  abbrev prepend : Bool → Chunk → Option (List Chunk) → Option (List Chunk)
  prepend true chunk rest = rest
  prepend false chunk none = none
  prepend false chunk (some chunks) = some (chunk ∷ chunks)

  abbrev next_index : Bool → ℕ → ℕ
  next_index true i = i
  next_index false i = i + 1

  -- The loop, over the text from `start` on; `none` is a loop that has not ended within its fuel.
  unfoldable pub chunk_loop : (fuel : ℕ) → (chunk_index : ℕ) → Text → Option (List Chunk)
  chunk_loop fuel i [] = some []
  chunk_loop zero i (c ∷ text) = none
  chunk_loop (suc fuel) i (c ∷ text) =
      let chunk_text = take chunk_size (c ∷ text) in
      let blank = is_blank chunk_text in
      prepend blank (chunk_of i chunk_text)
        (chunk_loop fuel (next_index blank i) (drop (chunk_size - overlap) (c ∷ text)))

  -- Each round takes chunk_size - overlap characters.
  unfoldable pub split_into_chunks : Text → Option (List Chunk)
  unfolding chunk_loop
  split_into_chunks text = chunk_loop (length text) 0 text

-- A row of packages/db/models/document.py, with the columns that are read or written.
pub record Document : Type 0 where
  pub id : ℕ
  pub file_key : Text
  pub file_type : String
  pub status : String

pub record DocumentChunk : Type 0 where
  pub document_id : ℕ
  pub tenant_id : ℕ
  pub chunk : Chunk

pub record Store : Type 0 where
  pub documents : List Document
  pub chunks : List DocumentChunk

-- What a call returns, or the exception: NoResultFound, or that of the storage. `endless` is a loop
-- that does not end.
pub data Summary : Type 0 where
  summary : (chunk_count total_tokens : ℕ) → Summary
  no_result storage_error endless : Summary

-- file_key.split("/"): what is before the first "/", and what is behind it
abbrev pub cut_slash : Text → Option (Text × Text)
cut_slash [] = none
cut_slash (c ∷ s) =
    let rest = cut_slash s in
    if c == 47 then some ([], s) else elim rest [ none ↦ none | some p ↦ some (c ∷ p.0, p.1) ]

-- The bucket and the key of a file; `default` is "oie-documents".
abbrev pub location : (default file_key : Text) → Text × Text
location default file_key = elim (cut_slash file_key) [ none ↦ (default, file_key) | some p ↦ p ]

abbrev pub total_tokens : List Chunk → ℕ
total_tokens [] = 0
total_tokens (c ∷ chunks) = c.token_count + total_tokens chunks

abbrev pub chunk_rows : (document_id tenant_id : ℕ) → List Chunk → List DocumentChunk
chunk_rows document_id tenant_id chunks =
    map (λ c. record { document_id = document_id; tenant_id = tenant_id; chunk = c }) chunks

-- UPDATE documents SET status = 'chunked' WHERE id = :id
abbrev pub mark_chunked : ℕ → List Document → List Document
mark_chunked id documents =
    map (λ (d : Document). if d.id == id then record d { status = "chunked" } else d) documents

-- scalar_one() of the SELECT by the primary key
abbrev pub find_document : ℕ → List Document → Option Document
find_document id [] = none
find_document id (d ∷ documents) =
    let rest = find_document id documents in if d.id == id then some d else rest

module _ (is_blank : Text → Bool) (default : Text) (download : Text × Text → Option (List ℕ))
    (decode : List ℕ → Text) where
  -- Every type of file is decoded alike.
  abbrev pub extract_text : List ℕ → (file_type : String) → Text
  extract_text content file_type = decode content

  -- The part behind the loop.
  abbrev pub persist_chunks :
      (document_id tenant_id : ℕ) → Option (List Chunk) → Store → Summary × Store
  persist_chunks document_id tenant_id none s = (endless, s)
  persist_chunks document_id tenant_id (some chunks) s = (
    summary (length chunks) (total_tokens chunks),
    record {
      documents = mark_chunked document_id s.documents;
      chunks = s.chunks ++ chunk_rows document_id tenant_id chunks;
    },
  )

  abbrev pub process_content :
      (document_id tenant_id : ℕ) → (file_type : String) → Option (List ℕ) → Store → Summary × Store
  process_content document_id tenant_id file_type none s = (storage_error, s)
  process_content document_id tenant_id file_type (some content) s =
      persist_chunks document_id tenant_id
        (split_into_chunks is_blank 1000 200 (extract_text content file_type)) s

  abbrev pub process_row : (document_id tenant_id : ℕ) → Option Document → Store → Summary × Store
  process_row document_id tenant_id none s = (no_result, s)
  process_row document_id tenant_id (some d) s =
      process_content document_id tenant_id d.file_type (download (location default d.file_key)) s

  unfoldable pub process_document : (document_id tenant_id : ℕ) → Store → Summary × Store
  unfolding split_into_chunks
  process_document document_id tenant_id s =
      process_row document_id tenant_id (find_document document_id s.documents) s
