-- ===== src/Ingestion/Chunking/Manifest/Written.antt =====
-- app/services/ingestion/chunking.py: what `write_chunk_manifest` writes.
use atlas_rag.Common.{
  ◌==◌, if◌then◌else◌, [], ◌∷◌, true, ◌-◌, ◌+◌, ◌≡◌, ◌++◌, arith, refl, ◌≤◌, ◌<◌, suc, ℕ, List,
  length, Bool-cases, not, All, ltb, ap, inl, ◌∙◌, all, inr, sym, length-append,
}
use atlas_rag.Common.Result.{Result, ok, err, ◌>>=◌, >>=-eq-ok}
use atlas_rag.Ingestion.Chunking.Manifest.{
  write_chunks, is_valid, write_pages, write_chunk_manifest, Line, iter_chunk_manifest, manifest_of,
}
use atlas_rag.Ingestion.Chunking.{
  NormalizedPage, Tools, ChunkRecord, Policy, is_empty, chunk_page, ChunkError, nothing_searchable,
}
use atlas_rag.Database.{Uuid}
use atlas_rag.Ingestion.Chunking.Pages.{
  AreCounted, IsChunk, AreSpans, length-slice, chunk_page-IsChunk,
}
use atlas_rag.Ingestion.Chunking.Manifest.RoundTrip.{AreValid, iter_chunk_manifest-manifest_of}

write_chunks-ok :
    (most count : ℕ) (chunks written : List ChunkRecord)
    → write_chunks most count chunks ≡ ok written
    → count ≤ most
    → (written ≡ chunks) × (count + length chunks ≤ most)
unfolding write_chunks
write_chunks-ok most count [] written h below = (cc, omega arith)
write_chunks-ok most count (c ∷ chunks) written h below = elim (Bool-cases (ltb most (suc count))) [
  | inl full ↦ absurd (ground arith)
  | inr room ↦
      let (rest, later, last) =
        >>=-eq-ok (write_chunks most (suc count) chunks) (λ r. ok (c ∷ r)) (rw room at h) in
      let (same, fits) = write_chunks-ok most (suc count) chunks rest later (ground arith) in
      (cc, omega arith)
]

AreCounted-append :
    (n m : ℕ) (xs ys : List ChunkRecord)
    → AreCounted n xs
    → n + length xs ≡ m
    → AreCounted m ys
    → AreCounted n (xs ++ ys)
AreCounted-append n m [] ys first e rest = let e' : m ≡ n = omega arith in rw (← e') rest
AreCounted-append n m (x ∷ xs) ys first e rest =
    (first.0, AreCounted-append (suc n) m xs ys first.1 (omega arith) rest)

AreValid-append : (xs ys : List ChunkRecord) → AreValid xs → AreValid ys → AreValid (xs ++ ys)
AreValid-append [] ys first rest = rest
AreValid-append (x ∷ xs) ys first rest = (first.0, AreValid-append xs ys first.1 rest)

ok-eq :
    {a b : List ChunkRecord} → ◌≡◌ {A = Result ChunkError (List ChunkRecord)} (ok a) (ok b) → a ≡ b
ok-eq h = cc

filled : {A : Type 0} (xs : List A) → 0 < length xs → not (is_empty xs) ≡ true
filled [] h = absurd (omega arith)
filled (x ∷ xs) h = refl

IsChunk-is_valid :
    (page : NormalizedPage) (n : ℕ) (c : ChunkRecord)
    → 1 ≤ page.page_number
    → IsChunk page n c
    → is_valid c ≡ true
unfolding is_valid
IsChunk-is_valid page n c numbered chunk =
    let text : length c.text ≡ c.char_end - c.char_start =
      ap length chunk.text ∙ length-slice page.text c.char_start c.char_end chunk.within in
    let start : 1 ≤ c.page_start = rw chunk.on_page.0 numbered in
    let end : 1 ≤ c.page_end = rw chunk.on_page.1 numbered in
    let tokens = chunk.tokens in
    let ordered = chunk.ordered in rw (filled c.text (omega arith)) (ground arith)

All-IsChunk-is_valid :
    (page : NormalizedPage) (n : ℕ) (chunks : List ChunkRecord)
    → 1 ≤ page.page_number
    → All (IsChunk page n) chunks
    → AreValid chunks
All-IsChunk-is_valid page n [] numbered all_chunks = tt
All-IsChunk-is_valid page n (c ∷ chunks) numbered all_chunks = (
  IsChunk-is_valid page n c numbered all_chunks.0,
  All-IsChunk-is_valid page n chunks numbered all_chunks.1,
)

module _ (tools : Tools) (t d : Uuid) (policy : Policy)
    (overlap_smaller : policy.chunk_overlap_tokens < policy.chunk_max_tokens) where
  -- A page as the parser validates it, and the tokenizer's spans of its text.
  unfoldable pub IsPage : NormalizedPage → Type 0
  IsPage page = (1 ≤ page.page_number) × AreSpans (length page.text) 0 (tools.spans page.text)

  chunk_page-ok :
      (page : NormalizedPage) (first : ℕ) (chunks : List ChunkRecord)
      → IsPage page
      → chunk_page tools t d policy page first ≡ ok chunks
      → AreCounted first chunks × AreValid chunks
  unfolding chunk_page IsPage
  chunk_page-ok page first chunks valid h = elim (Bool-cases (all tools.is_space page.text)) [
    | inl blank ↦ let nothing : chunks ≡ [] = ground arith in rw nothing (tt, tt)
    | inr has_text ↦ elim (Bool-cases (ltb policy.chunk_page_max_chars (length page.text))) [
      | inl long ↦ absurd (ground arith)
      | inr short ↦
          let (found, same, chunked, counted) =
            chunk_page-IsChunk tools t d policy page first overlap_smaller has_text (ground arith)
              valid.1 in
          let is_found : chunks ≡ found = ok-eq (sym h ∙ same) in
          rw is_found
            (counted, All-IsChunk-is_valid page policy.chunk_max_tokens found valid.0 chunked)
    ]
  ]

  write_pages-ok :
      (count : ℕ) (pages : List NormalizedPage) (chunks : List ChunkRecord)
      → All IsPage pages
      → count ≤ policy.max_chunks
      → write_pages tools t d policy count pages ≡ ok chunks
      → AreCounted count chunks × AreValid chunks × (count + length chunks ≤ policy.max_chunks)
  unfolding write_pages
  write_pages-ok count [] chunks valid below h =
      let nothing : chunks ≡ [] = ok-eq (sym h) in rw nothing (tt, tt, omega arith)
  write_pages-ok count (page ∷ pages) chunks valid below h =
      let append : List ChunkRecord → Result ChunkError (List ChunkRecord) = λ written.
        write_pages tools t d policy (count + length written) pages >>= λ rest.
        ok (written ++ rest) in
      let (cut, cutting, writing) =
        >>=-eq-ok (chunk_page tools t d policy page count)
          (λ cut. write_chunks policy.max_chunks count cut >>= append) h in
      let (written, wrote, going_on) =
        >>=-eq-ok (write_chunks policy.max_chunks count cut) append writing in
      let (same, fits) = write_chunks-ok policy.max_chunks count cut written wrote below in
      let next : count + length written ≤ policy.max_chunks = rw same fits in
      let (rest, later, last) =
        >>=-eq-ok (write_pages tools t d policy (count + length written) pages)
          (λ rest. ok (written ++ rest)) going_on in
      let (counted, fine) = chunk_page-ok page count cut valid.0 cutting in
      let (counted', fine', fits') =
        write_pages-ok (count + length written) pages rest valid.1 next later in
      let all_of_it : chunks ≡ written ++ rest = ok-eq (sym last) in
      rw all_of_it (
        AreCounted-append count (count + length written) written rest (rw same counted) refl
            counted',
        AreValid-append written rest (rw same fine) fine',
        omega (arith, length-append {0} written rest),
      )

  -- A manifest that was written is read back as the chunks it was written from. It has at least one
  -- chunk and no more than the limit, and the chunks are numbered from 0 on.
  pub write_chunk_manifest-iter_chunk_manifest :
      (pages : List NormalizedPage) (lines : List Line)
      → All IsPage pages
      → write_chunk_manifest tools t d policy pages ≡ ok lines
      → (chunks : List ChunkRecord) × (write_pages tools t d policy 0 pages ≡ ok chunks)
        × (iter_chunk_manifest t d lines ≡ ok chunks)
        × (0 < length chunks)
        × (length chunks ≤ policy.max_chunks)
        × AreCounted 0 chunks
  unfolding write_chunk_manifest
  write_chunk_manifest-iter_chunk_manifest pages lines valid h =
      let finish : List ChunkRecord → Result ChunkError (List Line) = λ chunks.
        if length chunks == 0
        then err nothing_searchable
        else ok (manifest_of tools t d policy chunks) in
      let (chunks, wrote, last) = >>=-eq-ok (write_pages tools t d policy 0 pages) finish h in
      let (counted, fine, fits) = write_pages-ok 0 pages chunks valid (omega arith) wrote in
      elim (Bool-cases (length chunks == 0)) [
        | inl nothing ↦ absurd (ground arith)
        | inr some_chunks ↦
            let same : lines ≡ manifest_of tools t d policy chunks = ground arith in
            (
              chunks,
              wrote,
              rw same (iter_chunk_manifest-manifest_of t d tools policy chunks counted fine),
              ground arith,
              omega arith,
              counted,
            )
      ]
