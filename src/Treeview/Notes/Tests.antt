-- ===== src/Treeview/Notes/Tests.antt =====
-- treeview/src/notes.cpp: a stream that keeps its promises, and a tree that goes through it.
use cosec_examples.Prelude.{
  ℕ, ◌≡◌, refl, Bool, true, false, some, List, [], ◌∷◌, ◌++◌, length, take, drop, ◌==◌,
  if◌then◌else◌, arith,
}
use cosec_examples.Treeview.Notes.{
  Address, Bytes, Qt, NoteEntity, note, folder, empty, item, size, ok, write, read,
}
use cosec_examples.Treeview.Notes.RoundTrip.{TakesBack, contents, Orphaned, read-write, depth, Fits}

abbrev pub first : List ℕ → ℕ
first [] = 0
first (b ∷ bs) = b

abbrev pub rest_of : List ℕ → List ℕ
rest_of [] = []
rest_of (b ∷ bs) = bs

abbrev pub plain : Qt
plain = record {
  put_string = λ s. length s ∷ s;
  get_string = λ ds. (take (first ds) (rest_of ds), drop (first ds) (rest_of ds));
  put_bool = λ b. (if b then 1 else 0) ∷ [];
  get_bool = λ ds. (first ds == 1, rest_of ds);
  put_int = λ n. n ∷ [];
  get_int = λ ds. (first ds, rest_of ds);
  note_name = 78 ∷ [];
  folder_name = 70 ∷ [];
}

take-append : (s rest : List ℕ) → take (length s) (s ++ rest) ≡ s
take-append [] rest = refl
take-append (x ∷ xs) rest = rw (take-append xs rest)

drop-append : (s rest : List ℕ) → drop (length s) (s ++ rest) ≡ rest
drop-append [] rest = refl
drop-append (x ∷ xs) rest = drop-append xs rest

plain-bool : (b : Bool) (rest : Bytes) → plain.get_bool (plain.put_bool b ++ rest) ≡ (b, rest)
plain-bool true rest = refl
plain-bool false rest = refl

pub plain-TakesBack : TakesBack plain
plain-TakesBack = record {
  string = λ s rest. rw (take-append s rest, drop-append s rest) refl;
  bool = plain-bool;
  int = λ n rest h. refl;
}

-- A folder with a note in it.
abbrev pub letters : NoteEntity
letters = folder 5 (some 4) (76 ∷ []) (item (note 6 (some 5) (65 ∷ []) (1 ∷ 2 ∷ [])) empty)

read-write_example :
    (c : NoteEntity) × (next' : Address) × (read plain 2 (write plain letters ++ 9 ∷ []) 20
      ≡ ok (c, 9 ∷ [], next'))
    × (contents c ≡ contents letters)
    × Orphaned c
unfolding depth Fits size
read-write_example =
    read-write plain plain-TakesBack letters 2 (9 ∷ []) 20 (omega arith) (omega arith, (tt, tt))
