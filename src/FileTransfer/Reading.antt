-- ===== src/FileTransfer/Reading.antt =====
-- The reads of any file.
use mathlib.Core.Path.{subst}
use iiw_udp_gbn.Base.{
  ℕ, zero, suc, ◌+◌, ◌-◌, ◌*◌, ◌/◌, ◌<◌, ◌≤◌, ◌≡◌, List, [], ◌∷◌, ◌++◌, arith, length, take, drop,
  take-append-drop, length-take, length-drop, ltb, Bool-cases, inl, inr,
}
use iiw_udp_gbn.FileTransfer.{max_file_chunk_size}
use iiw_udp_gbn.FileTransfer.Chunks.{IsReading, last, full}

reading :
    (n : ℕ) (file : List ℕ)
    → length file < n * max_file_chunk_size
    → (chunks : List (List ℕ)) × IsReading file chunks
      × (length chunks ≡ length file / max_file_chunk_size + 1)
reading zero file h = absurd (omega arith)
reading (suc n) file h = elim (Bool-cases (ltb (length file) max_file_chunk_size)) [
  | inl short ↦ (file ∷ [], last (ground (arith, short)), ground (arith, short))
  | inr long ↦
      (let enough : max_file_chunk_size ≤ length file = ground (arith, long) in
        let front = take max_file_chunk_size file in
        let back = drop max_file_chunk_size file in
        let whole : front ++ back ≡ file = take-append-drop max_file_chunk_size file in
        let len : length front ≡ max_file_chunk_size =
          omega (arith, length-take max_file_chunk_size file, enough) in
        let less : length back ≡ length file - max_file_chunk_size =
          length-drop max_file_chunk_size file in
        let (chunks, r, count) = reading n back (omega (arith, less, h)) in
        (
          front ∷ chunks,
          subst (λ f. IsReading f (front ∷ chunks)) whole (full len r),
          omega (arith, count, less, enough),
        ))
]

-- Each file has its reads: one chunk for every 10240 bytes, and one more.
pub every_file-IsReading :
    (file : List ℕ)
    → (chunks : List (List ℕ)) × IsReading file chunks
      × (length chunks ≡ length file / max_file_chunk_size + 1)
every_file-IsReading file = reading (length file + 1) file (omega arith)
