-- ===== src/Treeview/Notes.antt =====
-- treeview/src/notes.hpp, notes.cpp: the tree of notes, with the raw pointers to the parents, and the
-- stream operators. What they call of Qt is a parameter.
pub mod RoundTrip
pub mod Tests
use cosec_examples.Prelude.{
  ℕ, zero, suc, ◌+◌, ◌%◌, ◌^◌, Bool, true, false, Option, none, some, List, [], ◌++◌, ltb,
  if◌then◌else◌,
}

-- UTF-16 units.
abbrev pub QString : Type 0
QString = List ℕ

-- The object that a pointer points to.
abbrev pub Address : Type 0
Address = ℕ

-- What is in a stream, as bytes.
abbrev pub Bytes : Type 0
Bytes = List ℕ

-- QDataStream's operators for the types that the program puts into it, an int as a word of 32 bits,
-- and the translated default names.
pub record Qt : Type 0 where
  pub put_string : QString → Bytes
  pub get_string : Bytes → QString × Bytes
  pub put_bool : Bool → Bytes
  pub get_bool : Bytes → Bool × Bytes
  pub put_int : ℕ → Bytes
  pub get_int : Bytes → ℕ × Bytes
  pub note_name : QString
  pub folder_name : QString

-- A Note or a NotesFolder: its address, parent_ and name_, and text_ or items_.
mutual
  pub data NoteEntity : Type 0 where
    note : Address → Option Address → QString → QString → NoteEntity
    folder : Address → Option Address → QString → Items → NoteEntity

  pub data Items : Type 0 where
    empty : Items
    item : NoteEntity → Items → Items

unfoldable pub size : Items → ℕ
size empty = 0
size (item e es) = suc (size es)

unfoldable pub set_name : QString → NoteEntity → NoteEntity
set_name s (note this parent name text) = note this parent s text
set_name s (folder this parent name items) = folder this parent s items

unfoldable pub set_parent : Option Address → NoteEntity → NoteEntity
set_parent p (note this parent name text) = note this p name text
set_parent p (folder this parent name items) = folder this p name items

-- The outcome of operator>>: a value, the exception of reserve for a negative count, or no fuel left.
pub data Outcome (A : Type 0) : Type 0 where
  ok : A → Outcome A
  length_error : Outcome A
  out_of_fuel : Outcome A

unfoldable pub and_then : {A B : Type 0} → Outcome A → (A → Outcome B) → Outcome B
and_then (ok a) f = f a
and_then length_error f = length_error
and_then out_of_fuel f = out_of_fuel

-- An object that operator>> has read, what is left of the stream, and the next address.
abbrev pub Reader : Type 0
Reader = Bytes → Address → Outcome (NoteEntity × Bytes × Address)

-- for(int i=0;i<n;++i)
unfoldable pub read_items : Reader → ℕ → Bytes → Address → Outcome (Items × Bytes × Address)
read_items rd zero ds next = ok (empty, ds, next)
read_items rd (suc n) ds next =
    and_then (rd ds next)
      (λ e. and_then (read_items rd n e.1 e.2) (λ es. ok (item e.0 es.0, es.1, es.2)))

pub named :
    QString → Outcome (NoteEntity × Bytes × Address) → Outcome (NoteEntity × Bytes × Address)
named s o = and_then o (λ e. ok (set_name s e.0, e.1, e.2))

module _ (qt : Qt) where
  unfoldable mutual
    -- operator<<
    pub write : NoteEntity → Bytes
    write (note this parent name text) =
        qt.put_string name ++ (qt.put_bool false ++ qt.put_string text)
    write (folder this parent name items) =
        qt.put_string name
        ++ (qt.put_bool true ++ (qt.put_int (size items % 2 ^ 32) ++ write_items items))

    pub write_items : Items → Bytes
    write_items empty = []
    write_items (item e es) = write e ++ write_items es

  pub read_note : Reader
  read_note ds next =
      let text = qt.get_string ds in ok (note next none qt.note_name text.0, text.1, suc next)

  pub read_folder : Reader → Reader
  read_folder rd ds next =
      let n = qt.get_int ds in
      if ltb n.0 (2 ^ 31)
      then and_then (read_items rd n.0 n.1 (suc next))
          (λ es. ok (folder next none qt.folder_name es.0, es.1, es.2))
      else length_error

  -- if(isFolder)
  pub read_entity : Reader → Reader
  read_entity rd ds next =
      let is_folder = qt.get_bool ds in
      elim is_folder.0 [
        | true ↦ read_folder rd is_folder.1 next
        | false ↦ read_note is_folder.1 next
      ]

  -- operator>>, on fuel for the depth of the folders.
  pub read : ℕ → Reader
  read zero ds next = out_of_fuel
  read (suc fuel) ds next =
      let name = qt.get_string ds in named name.0 (read_entity (read fuel) name.1 next)
