-- ===== src/InterprocessCopy/Steps.antt =====
-- interprocess-copy/src/main.cpp: every step keeps the two processes together.
use cosec_examples.Prelude.{
  ℕ, ◌+◌, ◌^◌, ◌≤◌, ◌<◌, ◌≡◌, refl, sym, ◌∙◌, ap, subst, Bool, true, false, List, [], ◌∷◌, ◌++◌,
  ◌==◌, if◌then◌else◌, length, take, arith, append_assoc, length-append,
}
use cosec_examples.InterprocessCopy.{
  Bytes, Op, shared_memory, pipe, vm_write, quit_op, code, length_of, op_of, between, piping,
  waiting, parent_ended, listening, receiving, System, put_at, piped, iterate, answer, receive,
  dispatch, Step, iteration, quit, pipe_in, woken, asked, pipe_out, Lengths, one_more, Forked,
  Reaches, here, further,
}
use cosec_examples.InterprocessCopy.Modes.{
  Mode, idle, asked_shared, asked_pipe, asked_vm, transfer, answered, quitting, over, piped-piping,
  piped_ne, take-put_at, receive-Mode, iterate-Mode, asked-Mode,
}

pub record Together (s : System) : Type 0 where
  pub mode : Mode s
  pub lengths : Lengths (length s.parent_data) s.iterations
  pub small : length s.parent_data < 2 ^ 32

-- The parent's data and the iterations that are left, which most steps keep.
abbrev Keeps : System → System → Type 0
Keeps s t = (t.parent_data ≡ s.parent_data) × (t.iterations ≡ s.iterations)

if-Keeps : (b : Bool) (s t u : System) → Keeps s t → Keeps s u → Keeps s (if b then t else u)
if-Keeps true s t u h k = h
if-Keeps false s t u h k = k

receive-Keeps : (n got : ℕ) (s : System) → Keeps s (receive n got s)
unfolding receive answer
receive-Keeps n got s =
    if-Keeps (got == n) s (answer s) (record s { child = receiving n got }) (refl, refl)
      (refl, refl)

dispatch-Keeps : (x : ℕ) (s : System) → Keeps s (dispatch x s)
unfolding dispatch answer
dispatch-Keeps x s =
    if-Keeps (op_of x == quit_op) s _ _ (refl, refl)
      (if-Keeps (op_of x == code shared_memory) s _ _ (refl, refl)
        (if-Keeps (op_of x == code pipe) s _ _ (receive-Keeps (length_of x) 0 s)
          (if-Keeps (op_of x == code vm_write) s _ _ (refl, refl) (refl, refl))))

first_length :
    (bound : ℕ) (op : Op) (n : ℕ) (rest : List (Op × ℕ))
    → Lengths bound ((op, n) ∷ rest)
    → (n ≤ bound) × Lengths bound rest
first_length bound op n rest (one_more le l) = (le, l)

iterate-Keeps : (op : Op) (n : ℕ) (s : System) → Keeps s (iterate op n s)
unfolding iterate
iterate-Keeps shared_memory n s = (refl, refl)
iterate-Keeps pipe n s = (refl, refl)
iterate-Keeps vm_write n s = (refl, refl)

iteration-Mode :
    (s : System) (op : Op) (n : ℕ) (rest : List (Op × ℕ))
    → s.parent ≡ between
    → n ≤ length s.parent_data
    → Mode s
    → Mode (iterate op n (record s { iterations = rest }))
iteration-Mode s op n rest p le (idle _ c e a i) =
    iterate-Mode (record s { iterations = rest }) op n le c e a i
iteration-Mode s op n rest p le (asked_shared _ _ q _ _ _ _ _) = absurd (cc)
iteration-Mode s op n rest p le (asked_pipe m xs _ q _ _ _ _) =
    absurd ((piped_ne m xs).0 (sym q ∙ p))
iteration-Mode s op n rest p le (asked_vm _ _ q _ _ _ _ _) = absurd (cc)
iteration-Mode s op n rest p le (transfer m _ xs _ q _ _ _ _ _ _) =
    absurd ((piped_ne m xs).0 (sym q ∙ p))
iteration-Mode s op n rest p le (answered _ q _ _ _ _ _) = absurd (cc)
iteration-Mode s op n rest p le (quitting q _ _) = absurd (cc)
iteration-Mode s op n rest p le (over q _) = absurd (cc)

quit-Mode :
    (s : System)
    → s.parent ≡ between
    → Mode s
    → Mode (record s { event_to_child = s.event_to_child + quit_op; parent = parent_ended })
quit-Mode s p (idle _ c e a i) = quitting refl c (omega (arith, e))
quit-Mode s p (asked_shared _ _ q _ _ _ _ _) = absurd (cc)
quit-Mode s p (asked_pipe m xs _ q _ _ _ _) = absurd ((piped_ne m xs).0 (sym q ∙ p))
quit-Mode s p (asked_vm _ _ q _ _ _ _ _) = absurd (cc)
quit-Mode s p (transfer m _ xs _ q _ _ _ _ _ _) = absurd ((piped_ne m xs).0 (sym q ∙ p))
quit-Mode s p (answered _ q _ _ _ _ _) = absurd (cc)
quit-Mode s p (quitting q _ _) = absurd (cc)
quit-Mode s p (over q _) = absurd (cc)

pipe_in-Mode :
    (s : System) (n : ℕ) (chunk rest : Bytes)
    → s.parent ≡ piping n (chunk ++ rest)
    → Mode s
    → Mode (record s { in_pipe = s.in_pipe ++ chunk; parent = piped n rest })
pipe_in-Mode s n chunk rest p (asked_pipe m xs le q c e a i) =
    let (same, all) = piped-piping m n xs (chunk ++ rest) (sym q ∙ p) in
    asked_pipe m rest le (ap (λ k. piped k rest) (sym same)) c e a
      (append_assoc s.in_pipe chunk rest ∙ ap (λ r. s.in_pipe ++ r) (sym all) ∙ i)
pipe_in-Mode s n chunk rest p (transfer m got xs le q c e a t i ne) =
    let (same, all) = piped-piping m n xs (chunk ++ rest) (sym q ∙ p) in
    transfer m got rest le (ap (λ k. piped k rest) (sym same)) c e a t
      (ap (λ r. got ++ r) (append_assoc s.in_pipe chunk rest ∙ ap (λ r. s.in_pipe ++ r) (sym all))
        ∙ i)
      ne
pipe_in-Mode s n chunk rest p (idle q _ _ _ _) = absurd (cc)
pipe_in-Mode s n chunk rest p (asked_shared _ _ q _ _ _ _ _) = absurd (cc)
pipe_in-Mode s n chunk rest p (asked_vm _ _ q _ _ _ _ _) = absurd (cc)
pipe_in-Mode s n chunk rest p (answered _ q _ _ _ _ _) = absurd (cc)
pipe_in-Mode s n chunk rest p (quitting q _ _) = absurd (cc)
pipe_in-Mode s n chunk rest p (over q _) = absurd (cc)

-- When the parent's wait ends, the child has answered and has the bytes.
pub woken-answered :
    (s : System) (n : ℕ)
    → s.parent ≡ waiting n
    → 1 ≤ s.event_to_parent
    → Mode s
    → (s.child ≡ listening)
      × (s.event_to_child ≡ 0)
      × (s.in_pipe ≡ [])
      × (take n s.child_data ≡ take n s.parent_data)
woken-answered s n p some_answer (answered m q c e a i t) =
    let same : m ≡ n = cc in
    (c, e, i, subst (λ k. take k s.child_data ≡ take k s.parent_data) same t)
woken-answered s n p some_answer (idle q _ _ _ _) = absurd (cc)
woken-answered s n p some_answer (asked_shared _ _ _ _ _ a _ _) =
    absurd (omega (arith, some_answer, a))
woken-answered s n p some_answer (asked_pipe _ _ _ _ _ _ a _) =
    absurd (omega (arith, some_answer, a))
woken-answered s n p some_answer (asked_vm _ _ _ _ _ a _ _) = absurd (omega (arith, some_answer, a))
woken-answered s n p some_answer (transfer _ _ _ _ _ _ _ a _ _ _) =
    absurd (omega (arith, some_answer, a))
woken-answered s n p some_answer (quitting q _ _) = absurd (cc)
woken-answered s n p some_answer (over q _) = absurd (cc)

pipe_out-Mode :
    (s : System) (n got : ℕ) (chunk rest : Bytes)
    → s.child ≡ receiving n got
    → s.in_pipe ≡ chunk ++ rest
    → Mode s
    → Mode (
        receive n
          (got + length chunk)
          (record s { in_pipe = rest; child_data = put_at got chunk s.child_data }))
pipe_out-Mode s n got chunk rest c i (transfer m g xs le q d e a t all ne) =
    let same : m ≡ n = cc in
    let read : length g ≡ got = cc in
    let r = record s { in_pipe = rest; child_data = put_at (length g) chunk s.child_data } in
    subst
      (λ k. Mode (
        receive k (got + length chunk)
          (record s { in_pipe = rest; child_data = put_at got chunk s.child_data })))
      same
      (subst
        (λ k. Mode (
          receive m (k + length chunk)
            (record s { in_pipe = rest; child_data = put_at k chunk s.child_data })))
        read
        (subst (λ k. Mode (receive m k r)) (length-append g chunk)
          (receive-Mode r m (g ++ chunk) xs le q e a (take-put_at g chunk s.child_data t) (
            append_assoc g chunk (rest ++ xs)
            ∙ ap (λ z. g ++ z) (sym (append_assoc chunk rest xs) ∙ ap (λ z. z ++ xs) (sym i))
            ∙ all))))
pipe_out-Mode s n got chunk rest c i (idle _ q _ _ _) = absurd (cc)
pipe_out-Mode s n got chunk rest c i (asked_shared _ _ _ q _ _ _ _) = absurd (cc)
pipe_out-Mode s n got chunk rest c i (asked_pipe _ _ _ _ q _ _ _) = absurd (cc)
pipe_out-Mode s n got chunk rest c i (asked_vm _ _ _ q _ _ _ _) = absurd (cc)
pipe_out-Mode s n got chunk rest c i (answered _ _ q _ _ _ _) = absurd (cc)
pipe_out-Mode s n got chunk rest c i (quitting _ q _) = absurd (cc)
pipe_out-Mode s n got chunk rest c i (over _ q) = absurd (cc)

Together-kept : (s t : System) → Together s → Keeps s t → Mode t → Together t
Together-kept s t h k m = record {
  mode = m;
  lengths =
      subst (λ l. Lengths l t.iterations) (ap length (sym k.0))
        (subst (Lengths (length s.parent_data)) (sym k.1) h.lengths);
  small = subst (λ d. length d < 2 ^ 32) (sym k.0) h.small;
}

Step-Together : {capacity : ℕ} (s t : System) → Together s → Step capacity s t → Together t
Step-Together s _ h (iteration {op} {n} {rest} p i) =
    let (le, l) =
      first_length (length s.parent_data) op n rest
        (subst (Lengths (length s.parent_data)) i h.lengths) in
    let r = record s { iterations = rest } in
    let k = iterate-Keeps op n r in
    record {
      mode = iteration-Mode s op n rest p le h.mode;
      lengths =
          subst (λ d. Lengths d (iterate op n r).iterations) (ap length (sym k.0))
            (subst (Lengths (length s.parent_data)) (sym k.1) l);
      small = subst (λ d. length d < 2 ^ 32) (sym k.0) h.small;
    }
Step-Together s _ h (quit p i) = Together-kept s _ h (refl, refl) (quit-Mode s p h.mode)
Step-Together s _ h (pipe_in {n} chunk rest p some_bytes room) =
    Together-kept s _ h (refl, refl) (pipe_in-Mode s n chunk rest p h.mode)
Step-Together s _ h (woken {n} p some_answer) =
    let (c, e, i, _) = woken-answered s n p some_answer h.mode in
    Together-kept s _ h (refl, refl) (idle refl c e refl i)
Step-Together s _ h (asked c some_request) =
    Together-kept s _ h (dispatch-Keeps s.event_to_child (record s { event_to_child = 0 }))
      (asked-Mode s h.small c some_request h.mode)
Step-Together s _ h (pipe_out {n} {got} chunk rest c i some_bytes fits) =
    let r = record s { in_pipe = rest; child_data = put_at got chunk s.child_data } in
    Together-kept s _ h (receive-Keeps n (got + length chunk) r)
      (pipe_out-Mode s n got chunk rest c i h.mode)

pub Reaches-Together : {capacity : ℕ} (s t : System) → Forked s → Reaches capacity s t → Together t
Reaches-Together s _ f here = record {
  mode = idle f.parent_starts f.child_starts f.no_request f.no_answer f.no_pipe;
  lengths = f.lengths;
  small = f.small;
}
Reaches-Together s _ f (further {t} {u} r step) = Step-Together t u (Reaches-Together s t f r) step

-- From the fork on, in whatever order the processes run and in whatever pieces the pipe passes the bytes: when
-- the parent's wait in an iteration of `n` bytes ends, the first `n` bytes of the child's data are the
-- parent's, nothing is left in the pipe, and the child waits for a request, of which none is left.
pub Reaches-woken :
    {capacity : ℕ} (s t : System) (n : ℕ)
    → Forked s
    → Reaches capacity s t
    → t.parent ≡ waiting n
    → 1 ≤ t.event_to_parent
    → (t.child ≡ listening)
      × (t.event_to_child ≡ 0)
      × (t.in_pipe ≡ [])
      × (take n t.child_data ≡ take n t.parent_data)
Reaches-woken s t n f r p some_answer =
    woken-answered t n p some_answer (Reaches-Together s t f r).mode
