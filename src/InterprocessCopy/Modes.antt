-- ===== src/InterprocessCopy/Modes.antt =====
-- interprocess-copy/src/main.cpp: the states that the two processes get to together.
use cosec_examples.Prelude.{
  ℕ, ◌+◌, ◌^◌, ◌≤◌, ◌<◌, ◌≡◌, ◌≢◌, refl, sym, ◌∙◌, ap, subst, [], ◌∷◌, ◌++◌, ◌==◌, length, take,
  drop, arith, Bool-cases, ==_iff, inl, inr, append_assoc, append-nil, length-append, length-take,
  take-length,
}
use cosec_examples.InterprocessCopy.{
  Bytes, Op, shared_memory, pipe, vm_write, quit_op, code, request, length_of, op_of, between,
  piping, waiting, parent_ended, listening, receiving, child_ended, System, copy, put_at, piped,
  iterate, answer, receive, dispatch,
}

-- Where both processes are.
pub data Mode (s : System) : Type 0 where
  idle :
      s.parent ≡ between
      → s.child ≡ listening
      → s.event_to_child ≡ 0
      → s.event_to_parent ≡ 0
      → s.in_pipe ≡ []
      → Mode s
  asked_shared :
      (n : ℕ)
      → n ≤ length s.parent_data
      → s.parent ≡ waiting n
      → s.child ≡ listening
      → s.event_to_child ≡ request shared_memory n
      → s.event_to_parent ≡ 0
      → s.in_pipe ≡ []
      → take n s.mapping ≡ take n s.parent_data
      → Mode s
  asked_pipe :
      (n : ℕ) (rest : Bytes)
      → n ≤ length s.parent_data
      → s.parent ≡ piped n rest
      → s.child ≡ listening
      → s.event_to_child ≡ request pipe n
      → s.event_to_parent ≡ 0
      → s.in_pipe ++ rest ≡ take n s.parent_data
      → Mode s
  asked_vm :
      (n : ℕ)
      → n ≤ length s.parent_data
      → s.parent ≡ waiting n
      → s.child ≡ listening
      → s.event_to_child ≡ request vm_write n
      → s.event_to_parent ≡ 0
      → s.in_pipe ≡ []
      → take n s.child_data ≡ take n s.parent_data
      → Mode s
  transfer :
      (n : ℕ) (got rest : Bytes)
      → n ≤ length s.parent_data
      → s.parent ≡ piped n rest
      → s.child ≡ receiving n (length got)
      → s.event_to_child ≡ 0
      → s.event_to_parent ≡ 0
      → take (length got) s.child_data ≡ got
      → got ++ (s.in_pipe ++ rest) ≡ take n s.parent_data
      → length got ≢ n
      → Mode s
  answered :
      (n : ℕ)
      → s.parent ≡ waiting n
      → s.child ≡ listening
      → s.event_to_child ≡ 0
      → s.event_to_parent ≡ 1
      → s.in_pipe ≡ []
      → take n s.child_data ≡ take n s.parent_data
      → Mode s
  quitting : s.parent ≡ parent_ended → s.child ≡ listening → s.event_to_child ≡ quit_op → Mode s
  over : s.parent ≡ parent_ended → s.child ≡ child_ended → Mode s

pub length-take_le : (n : ℕ) (xs : Bytes) → n ≤ length xs → length (take n xs) ≡ n
length-take_le n xs h = omega (arith, length-take n xs)

take-copy : (n : ℕ) (xs ys : Bytes) → n ≤ length xs → take n (copy n xs ys) ≡ take n xs
unfolding copy
take-copy n xs ys h =
    ap (λ k. take k (take n xs ++ drop n ys)) {x = n} (omega (arith, length-take_le n xs h))
    ∙ take-length (take n xs) (drop n ys)

-- A list of which `n` elements are those of a longer one has them.
long_enough : (n : ℕ) (xs ys : Bytes) → take n xs ≡ take n ys → n ≤ length ys → n ≤ length xs
long_enough n xs ys e h = omega (arith, length-take n xs, length-take n ys, ap length e)

pub take-put_at :
    (got chunk destination : Bytes)
    → take (length got) destination ≡ got
    → take (length (got ++ chunk)) (put_at (length got) chunk destination) ≡ got ++ chunk
unfolding put_at
take-put_at got chunk destination h = rw h (
    ap (take (length (got ++ chunk)))
      (sym (append_assoc got chunk (drop (length got + length chunk) destination)))
    ∙ take-length (got ++ chunk) (drop (length got + length chunk) destination))

-- The request gives its parts back.
length_of-request : (op : Op) (n : ℕ) → n < 2 ^ 32 → length_of (request op n) ≡ n
unfolding length_of request
length_of-request shared_memory n h = omega (arith, h)
length_of-request pipe n h = omega (arith, h)
length_of-request vm_write n h = omega (arith, h)

op_of-request : (op : Op) (n : ℕ) → n < 2 ^ 32 → op_of (request op n) ≡ code op
unfolding op_of request
op_of-request shared_memory n h = omega (arith, h)
op_of-request pipe n h = omega (arith, h)
op_of-request vm_write n h = omega (arith, h)

empty : (xs : Bytes) → length xs ≡ 0 → xs ≡ []
empty [] h = refl
empty (x ∷ xs) h = absurd (omega (arith, h))

pub piped-piping : (n m : ℕ) (xs ys : Bytes) → piped n xs ≡ piping m ys → (n ≡ m) × (xs ≡ ys)
unfolding piped
piped-piping n m [] ys h = absurd (cc)
piped-piping n m (x ∷ xs) ys h = (cc, cc)

pub piped_ne : (n : ℕ) (xs : Bytes) → (piped n xs ≢ between) × (piped n xs ≢ parent_ended)
unfolding piped
piped_ne n [] = (λ e. cc, λ e. cc)
piped_ne n (x ∷ xs) = (λ e. cc, λ e. cc)

-- The child has read some of the bytes, or none yet, and answers when it has all.
pub receive-Mode :
    (s : System) (n : ℕ) (got rest : Bytes)
    → n ≤ length s.parent_data
    → s.parent ≡ piped n rest
    → s.event_to_child ≡ 0
    → s.event_to_parent ≡ 0
    → take (length got) s.child_data ≡ got
    → got ++ (s.in_pipe ++ rest) ≡ take n s.parent_data
    → Mode (receive n (length got) s)
unfolding receive answer piped
receive-Mode s n got rest le p c a t e = elim (Bool-cases (length got == n)) [
  | inl b ↦
      let all : length got ≡ n = (==_iff (length got) n).0 b in
      let none_left : length s.in_pipe + length rest ≡ 0 = omega (
        arith,
        ap length e,
        length-append got (s.in_pipe ++ rest),
        length-append s.in_pipe rest,
        length-take_le n s.parent_data le,
        all,
      ) in
      let in_pipe : s.in_pipe ≡ [] = empty s.in_pipe (omega (arith, none_left)) in
      let no_rest : rest ≡ [] = empty rest (omega (arith, none_left)) in
      rw b (
        answered n (p ∙ ap (piped n) no_rest) refl c (omega (arith, a)) in_pipe (
          ap (λ k. take k s.child_data) (sym all)
          ∙ t
          ∙ sym (append-nil got)
          ∙ ap (λ r. got ++ r) (sym (rw (in_pipe, no_rest) refl))
          ∙ e))
  | inr b ↦ rw b (transfer n got rest le p refl c a t e (λ q. absurd (ground (arith, b, q))))
]

-- The child reads what it is asked for.
module _ (s : System) (n : ℕ) (small : n < 2 ^ 32) where
  dispatch-shared_memory :
      dispatch (request shared_memory n) s
      ≡ answer (record s { child_data = copy n s.mapping s.child_data })
  unfolding dispatch
  dispatch-shared_memory =
      rw (op_of-request shared_memory n small, length_of-request shared_memory n small) refl

  dispatch-pipe : dispatch (request pipe n) s ≡ receive n 0 s
  unfolding dispatch
  dispatch-pipe = rw (op_of-request pipe n small, length_of-request pipe n small) refl

  dispatch-vm_write : dispatch (request vm_write n) s ≡ answer s
  unfolding dispatch
  dispatch-vm_write = rw (op_of-request vm_write n small) refl

dispatch-quit_op : (s : System) → dispatch quit_op s ≡ record s { child = child_ended }
unfolding dispatch op_of
dispatch-quit_op s = refl

pub iterate-Mode :
    (s : System) (op : Op) (n : ℕ)
    → n ≤ length s.parent_data
    → s.child ≡ listening
    → s.event_to_child ≡ 0
    → s.event_to_parent ≡ 0
    → s.in_pipe ≡ []
    → Mode (iterate op n s)
unfolding iterate
iterate-Mode s shared_memory n le c e a i =
    asked_shared n le refl c (omega (arith, e)) a i (take-copy n s.parent_data s.mapping le)
iterate-Mode s pipe n le c e a i =
    asked_pipe n (take n s.parent_data) le refl c (omega (arith, e)) a (rw i refl)
iterate-Mode s vm_write n le c e a i =
    asked_vm n le refl c (omega (arith, e)) a i (take-copy n s.parent_data s.child_data le)

-- The request that the child waits for arrives.
pub asked-Mode :
    (s : System)
    → length s.parent_data < 2 ^ 32
    → s.child ≡ listening
    → 1 ≤ s.event_to_child
    → Mode s
    → Mode (dispatch s.event_to_child (record s { event_to_child = 0 }))
unfolding answer
asked-Mode s small c some_request (idle _ _ e _ _) = absurd (omega (arith, some_request, e))
asked-Mode s small c some_request (asked_shared n le p _ e a i m) =
    let t = record s { event_to_child = 0 } in
    subst Mode
      (sym (ap (λ x. dispatch x t) e ∙ dispatch-shared_memory t n (omega (arith, le, small))))
      (answered n p refl refl (omega (arith, a)) i
        (take-copy n s.mapping s.child_data (long_enough n s.mapping s.parent_data m le) ∙ m))
asked-Mode s small c some_request (asked_pipe n rest le p _ e a i) =
    let t = record s { event_to_child = 0 } in
    subst Mode (sym (ap (λ x. dispatch x t) e ∙ dispatch-pipe t n (omega (arith, le, small))))
      (receive-Mode t n [] rest le p refl a refl i)
asked-Mode s small c some_request (asked_vm n le p _ e a i m) =
    let t = record s { event_to_child = 0 } in
    subst Mode (sym (ap (λ x. dispatch x t) e ∙ dispatch-vm_write t n (omega (arith, le, small))))
      (answered n p refl refl (omega (arith, a)) i m)
asked-Mode s small c some_request (transfer n got rest le p r e _ _ _ _) = absurd (cc)
asked-Mode s small c some_request (answered n p _ e _ _ _) = absurd (omega (arith, some_request, e))
asked-Mode s small c some_request (quitting p _ e) =
    let t = record s { event_to_child = 0 } in
    subst Mode (sym (ap (λ x. dispatch x t) e ∙ dispatch-quit_op t)) (over p refl)
asked-Mode s small c some_request (over p d) = absurd (cc)
