-- ===== src/Utils/FileDescriptor/Received.antt =====
-- utils/src/file_descriptor.cpp: what read_as_chunks brings in.
use cosec_examples.Prelude.{
  ℕ, zero, suc, ◌+◌, ◌-◌, ◌≤◌, ◌<◌, ◌≡◌, refl, ap, sym, ◌∙◌, inl, inr, List, [], ◌∷◌, ◌++◌,
  append_assoc, append-nil, ltb, length, length-append, arith, Bool-cases,
}
use cosec_examples.Utils.FileDescriptor.{
  Bytes, ReadResult, received, read_would_block, read_failed, returned, read_chunks, read_as_chunks,
}

-- The bytes that the calls bring up to the end of the file, or to a call that would block or fails.
pub arrived : List ReadResult → Bytes
arrived [] = []
arrived (received [] ∷ results) = []
arrived (received (b ∷ bs) ∷ results) = b ∷ bs ++ arrived results
arrived (read_would_block ∷ results) = []
arrived (read_failed e ∷ results) = []

record Got (rs : List ReadResult) (size : ℕ) (inp : Bytes) (done d : ℕ) (w : Bytes) : Type 0 where
  got : Bytes
  left : Bytes
  all : w ≡ inp ++ got
  many : d ≡ done + length got
  most : length got ≤ size
  first : got ++ left ≡ arrived rs
  none_left : length got < size → left ≡ []

nothing :
    (rs : List ReadResult) (size : ℕ) (inp left : Bytes) (done : ℕ) {d : ℕ} {w : Bytes}
    → returned done inp ≡ returned d w
    → left ≡ arrived rs
    → (0 < size → left ≡ [])
    → Got rs size inp done d w
nothing rs size inp left done {w = w} h q e = record {
  got = [];
  left = left;
  all = let same : inp ≡ w = cc in sym same ∙ sym (append-nil inp);
  many = ground arith;
  most = omega arith;
  first = q;
  none_left = e;
}

read_chunks-Got :
    (rs : List ReadResult) (size : ℕ) (inp : Bytes) (done : ℕ) {d : ℕ} {w : Bytes}
    → read_chunks rs size inp done ≡ returned d w
    → Got rs size inp done d w
unfolding read_chunks arrived
read_chunks-Got rs zero inp done h =
    nothing rs zero inp (arrived rs) done h refl (λ q. absurd (omega arith))
read_chunks-Got [] (suc size) inp done h = absurd (cc)
read_chunks-Got (received [] ∷ rs) (suc size) inp done h =
    nothing (received [] ∷ rs) (suc size) inp [] done h refl (λ q. refl)
read_chunks-Got (received (b ∷ bs) ∷ rs) (suc size) inp done {d} {w} h =
    elim (Bool-cases (ltb (suc size) (length (b ∷ bs)))) [
      | inl over ↦ absurd (ground arith)
      | inr fits ↦
          let few : length (b ∷ bs) ≤ suc size = ground arith in
          let on : read_chunks rs (suc size - length (b ∷ bs)) (inp ++ b ∷ bs)
                (done + length (b ∷ bs))
              ≡ returned d w =
            ground arith in
          let g =
            read_chunks-Got rs (suc size - length (b ∷ bs)) (inp ++ b ∷ bs) (done + length (b ∷ bs))
              on in
          let size_sum : length (b ∷ bs ++ g.got) ≡ length (b ∷ bs) + length g.got =
            length-append (b ∷ bs) g.got in
          record {
            got = b ∷ bs ++ g.got;
            left = g.left;
            all = g.all ∙ append_assoc inp (b ∷ bs) g.got;
            many = omega (arith, g.many);
            most = omega (arith, g.most);
            first = append_assoc (b ∷ bs) g.got g.left ∙ ap (λ ys. b ∷ bs ++ ys) g.first;
            none_left = λ q. g.none_left (omega arith);
          }
    ]
read_chunks-Got (read_would_block ∷ rs) (suc size) inp done h =
    nothing (read_would_block ∷ rs) (suc size) inp [] done h refl (λ q. refl)
read_chunks-Got (read_failed e ∷ rs) (suc size) inp done h = absurd (cc)

-- What read_as_chunks returns is how many bytes it has put into the buffer, no more than it holds, and
-- these are the first that arrived; where the buffer is not full, they are all that arrived.
pub read_as_chunks-arrived :
    (results : List ReadResult) (size : ℕ) {d : ℕ} {w : Bytes}
    → read_as_chunks results size ≡ returned d w
    → (left : Bytes) × (d ≡ length w)
      × (d ≤ size)
      × (w ++ left ≡ arrived results)
      × (d < size → left ≡ [])
unfolding read_as_chunks
read_as_chunks-arrived results size {d} {w} h =
    let g = read_chunks-Got results size [] 0 h in
    let same : w ≡ g.got = g.all in
    let many : d ≡ length g.got = omega (arith, g.many) in
    (
      g.left,
      many ∙ ap length (sym same),
      omega (arith, g.most),
      ap (λ ys. ys ++ g.left) same ∙ g.first,
      λ q. g.none_left (omega arith),
    )
