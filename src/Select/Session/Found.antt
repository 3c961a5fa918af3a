-- ===== src/Select/Session/Found.antt =====
-- select/src: how a read until a newline goes on, when the bytes already searched have none.
use cosec_examples.Prelude.{
  drop-length, ℕ, suc, ◌+◌, ◌≡◌, ◌≢◌, refl, sym, ◌∙◌, ap, inl, inr, false, none, some, ◌∷◌, ◌++◌,
  ◌==◌, length, arith, append_assoc, Option-cases, Bool-cases, ==_iff, length-append,
}
use cosec_examples.Select.ReadUntil.{
  Bytes, Until, index_of, match_len, async_read_until_impl, read_more, grown, room,
}
use cosec_examples.Select.Session.{newline, Session, reading, overrun, on_read, failed, awaiting}
use cosec_examples.Select.Session.Lines.{index_of-append, index_of-FirstLine}

pub match_len-none :
    (d : ℕ) (pre post : Bytes)
    → index_of d post ≡ none
    → match_len d (length pre) (pre ++ post) ≡ none
unfolding match_len
match_len-none d pre post h = ground (arith, drop-length pre post, h)

pub match_len-some :
    (d p : ℕ) (pre post : Bytes)
    → index_of d post ≡ some p
    → match_len d (length pre) (pre ++ post) ≡ some (suc (length pre + p))
unfolding match_len
match_len-some d p pre post h = ground (arith, drop-length pre post, h)

module _ {N : Type 0} where
  -- The session waits for the next bytes.
  unfoldable pub waiting : (ℕ → ℕ) → Session N → Session N
  waiting grow s = record s {
    in_buf = grown grow s.in_buf;
    searched = length s.in_buf.bytes;
    phase = reading (room (grown grow s.in_buf));
  }

  unfoldable pub overrunning : Session N → Session N
  overrunning s = record s { searched = length s.in_buf.bytes; phase = overrun }

  pub data Found (grow : ℕ → ℕ) (next : Session N → ℕ → Session N) (s result : Session N)
      : Type 0 where
    matched :
        (line rest : Bytes)
        → s.in_buf.bytes ≡ line ++ newline ∷ rest
        → index_of newline line ≡ none
        → result ≡ next s (suc (length line))
        → Found grow next s result
    unmatched :
        index_of newline s.in_buf.bytes ≡ none
        → length s.in_buf.bytes ≢ s.in_buf.max_size
        → result ≡ waiting grow s
        → Found grow next s result
    full :
        index_of newline s.in_buf.bytes ≡ none
        → length s.in_buf.bytes ≡ s.in_buf.max_size
        → result ≡ overrunning s
        → Found grow next s result

  module _ (grow : ℕ → ℕ) (next : Session N → ℕ → Session N) (s : Session N) where
    abbrev read_on : Until
    read_on = async_read_until_impl grow newline s.searched s.in_buf

    pub impl-none :
        match_len newline s.searched s.in_buf.bytes ≡ none → read_on ≡ read_more grow s.in_buf
    unfolding async_read_until_impl
    impl-none h = ground (arith, h)

    pub on_read-full :
        length s.in_buf.bytes ≡ s.in_buf.max_size
        → on_read next s (read_more grow s.in_buf) ≡ overrunning s
    unfolding on_read read_more failed overrunning
    on_read-full e = rw ((==_iff _ _).1 e) refl

    pub on_read-waiting :
        ((length s.in_buf.bytes == s.in_buf.max_size) ≡ false)
        → on_read next s (read_more grow s.in_buf) ≡ waiting grow s
    unfolding on_read read_more awaiting waiting
    on_read-waiting e = rw e refl

    pub impl-some :
        (n : ℕ)
        → match_len newline s.searched s.in_buf.bytes ≡ some n
        → on_read next s read_on ≡ next s n
    unfolding async_read_until_impl on_read
    impl-some n h =
        ap
          (λ o. on_read next s (elim o [
            | none ↦ read_more grow s.in_buf
            | some k ↦ record {
              buffer = s.in_buf;
              searched = s.searched;
              callback = some (none, k);
              read_of = none;
            }
          ]))
          h

    module _ (pre post : Bytes) (split : s.in_buf.bytes ≡ pre ++ post)
        (searched : s.searched ≡ length pre) (clean : index_of newline pre ≡ none) where
      no_match : index_of newline post ≡ none → match_len newline s.searched s.in_buf.bytes ≡ none
      no_match h = rw (split, searched) (match_len-none newline pre post h)

      Found-none : index_of newline post ≡ none → Found grow next s (on_read next s read_on)
      Found-none h =
          let no_line : index_of newline s.in_buf.bytes ≡ none =
            rw split (index_of-append newline pre post clean h) in
          let more = ap (on_read next s) (impl-none (no_match h)) in
          elim (Bool-cases (length s.in_buf.bytes == s.in_buf.max_size)) [
            | inl e ↦ let e' = (==_iff _ _).0 e in full no_line e' (more ∙ on_read-full e')
            | inr e ↦
                unmatched no_line (λ q. absurd (ground (arith, e, q))) (more ∙ on_read-waiting e)
          ]

      Found-some :
          (p : ℕ) → index_of newline post ≡ some p → Found grow next s (on_read next s read_on)
      Found-some p h =
          let f = index_of-FirstLine newline post p h in
          matched (pre ++ f.line) f.rest
            (split ∙ ap (λ t. pre ++ t) f.split ∙ sym (append_assoc pre f.line (newline ∷ f.rest)))
            (index_of-append newline pre f.line clean f.clean)
            (impl-some (suc (length (pre ++ f.line))) (
              rw (split, searched) (match_len-some newline p pre post h)
              ∙ ap some {x = suc (length pre + p)} (omega (arith, f.at, length-append pre f.line))))

      pub read_until-Found : Found grow next s (on_read next s read_on)
      read_until-Found = elim (Option-cases (index_of newline post)) [
        | inl h ↦ Found-none h
        | inr (p, h) ↦ Found-some p h
      ]
