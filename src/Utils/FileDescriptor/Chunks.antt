-- ===== src/Utils/FileDescriptor/Chunks.antt =====
-- utils/src/file_descriptor.cpp: what the loops over chunks bring through.
use cosec_examples.Prelude.{
  ℕ, ◌+◌, ◌-◌, ◌≤◌, ◌<◌, ◌≡◌, refl, ap, sym, ◌∙◌, List, [], ◌∷◌, ◌++◌, append_assoc, append-nil,
  ltb, length, take, drop, length-drop, take-append-drop, arith, subst, false,
}
use cosec_examples.Utils.FileDescriptor.{
  Bytes, WriteResult, accepted, write_would_block, write_failed, returned, write_chunks,
  write_as_chunks,
}

-- As write(2) is documented: a call accepts no more bytes than are left for it, and each accepts something.
pub data Accepts : List WriteResult → ℕ → Type 0 where
  done_with : {rs : List WriteResult} → Accepts rs 0
  accepts :
      {n left : ℕ} {rs : List WriteResult}
      → 0 < n
      → n ≤ left
      → Accepts rs (left - n)
      → Accepts (accepted n ∷ rs) left

write_chunks-all :
    (rs : List WriteResult) (buf out : Bytes) (done : ℕ)
    → Accepts rs (length buf)
    → write_chunks rs buf out done ≡ returned (done + length buf) (out ++ buf)
unfolding write_chunks
write_chunks-all rs [] out done v = rw (append-nil out) (ap (λ n. returned n out) (omega arith))
write_chunks-all (accepted n ∷ rs) (b ∷ bs) out done (accepts some_bytes few v) =
    let left : length (drop n (b ∷ bs)) ≡ length (b ∷ bs) - n = length-drop n (b ∷ bs) in
    let fits : ltb (length (b ∷ bs)) n ≡ false = ground (arith, few) in
    let sum : done + n + length (drop n (b ∷ bs)) ≡ done + length (b ∷ bs) =
      omega (arith, left, few) in
    let whole : (out ++ take n (b ∷ bs)) ++ drop n (b ∷ bs) ≡ out ++ b ∷ bs =
      append_assoc out (take n (b ∷ bs)) (drop n (b ∷ bs))
      ∙ ap (λ ys. out ++ ys) (take-append-drop n (b ∷ bs)) in
    let all =
      write_chunks-all rs (drop n (b ∷ bs)) (out ++ take n (b ∷ bs)) (done + n)
        (subst (Accepts rs) (sym left) v) in
    rw fits (all ∙ rw (sum, whole) refl)
write_chunks-all [] (b ∷ bs) out done v = elim v [ ]
write_chunks-all (write_would_block ∷ rs) (b ∷ bs) out done v = elim v [ ]
write_chunks-all (write_failed e ∷ rs) (b ∷ bs) out done v = elim v [ ]

-- If each call accepts something and no more than it is given, as write(2) is documented to, and there are
-- calls until nothing is left, write_as_chunks writes the whole buffer and returns its size.
pub write_as_chunks-all :
    (results : List WriteResult) (buf : Bytes)
    → Accepts results (length buf)
    → write_as_chunks results buf ≡ returned (length buf) buf
unfolding write_as_chunks
write_as_chunks-all results buf v =
    let sum : 0 + length buf ≡ length buf = omega arith in
    write_chunks-all results buf [] 0 v ∙ ap (λ n. returned n buf) sum
