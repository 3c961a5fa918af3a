-- ===== src/Treeview/NotesModel/Edit.antt =====
-- treeview/src/notesmodel.cpp: the members that change the tree, with the signals they emit.
pub mod Kept
pub mod Rows
pub mod RowCount
pub mod Removed
use cosec_examples.Prelude.{
  ℕ, zero, suc, ◌+◌, ◌-◌, ◌^◌, ◌%◌, Bool, true, false, not, ◌&&◌, ◌||◌, Option, none, some, List,
  [], ◌∷◌, ◌++◌, ltb, leb, ◌==◌, if◌then◌else◌,
}
use cosec_examples.Treeview.Notes.{
  QString, Address, Bytes, Qt, NoteEntity, note, folder, Items, empty, item, size, set_name,
  set_parent, Outcome, ok, length_error, out_of_fuel, and_then, write_items, read_items, read,
}
use cosec_examples.Treeview.NotesModel.{
  ℤ, pos, negsuc, QModelIndex, NotesModel, Signal, begin_reset_model, end_reset_model,
  end_insert_rows, begin_insert_rows, begin_remove_rows, this, items_of, find, change, target,
  parent,
}

pub append : Items → Items → Items
append empty other = other
append (item e es) other = item e (append es other)

pub take_items : ℕ → Items → Items
take_items zero es = empty
take_items (suc n) empty = empty
take_items (suc n) (item e es) = item e (take_items n es)

pub drop_items : ℕ → Items → Items
drop_items zero es = es
drop_items (suc n) empty = empty
drop_items (suc n) (item e es) = drop_items n es

-- items.insert(items.begin()+row,...)
pub insert_at : ℕ → Items → Items → Items
insert_at row new es = append (take_items row es) (append new (drop_items row es))

-- items.erase(items.begin()+row,items.begin()+(row+count))
pub erase_at : ℕ → ℕ → Items → Items
erase_at row count es = append (take_items row es) (drop_items count (drop_items row es))

pub map_items : (Items → Items) → NoteEntity → NoteEntity
map_items f (note a parent name text) = note a parent name text
map_items f (folder a parent name items) = folder a parent name (f items)

-- What a member returns, the model afterwards, and its signals.
abbrev pub Edited : Type 0
Edited = Bool × NotesModel × List Signal

abbrev pub refused : NotesModel → Edited
refused m = (false, m, [])

-- notes_==newNotes: each object has its address.
pub same_notes : Option NoteEntity → Option NoteEntity → Bool
same_notes none none = true
same_notes none (some new) = false
same_notes (some old) none = false
same_notes (some old) (some new) = this old == this new

pub set_notes : Option NoteEntity → NotesModel → NotesModel × List Signal
set_notes new m =
    if same_notes m.notes new
    then (m, [])
    else (record m { notes = new }, begin_reset_model ∷ end_reset_model ∷ [])

-- if(!notes_) and if(!p) return false, else what is done with the folder's address and items.
unfoldable pub with_folder :
    NotesModel → Option QModelIndex → (NoteEntity → Address → Items → Option Edited) → Option Edited
with_folder m parent f = elim m.notes [
  | none ↦ some (refused m)
  | some root ↦ elim (target root parent) [
    | none ↦ none
    | some p ↦ elim (items_of p) [ none ↦ some (refused m) | some items ↦ f root (this p) items ]
  ]
]

-- beginInsertRows, the insertion and endInsertRows, for a row that the vector has.
unfoldable pub insert_new :
    NotesModel
    → Option QModelIndex
    → ℕ
    → Items
    → Address
    → NoteEntity
    → Address
    → Items
    → Option Edited
insert_new m parent row new next root a items =
    if leb row (size items) && ltb (row + size new) (2 ^ 31)
    then some (
      true,
      record { notes = some (change a (map_items (insert_at row new)) root); next = next },
      begin_insert_rows parent row (row + size new) ∷ end_insert_rows ∷ [],
    )
    else none

module _ (qt : Qt) where
  -- note_generator: notes with the parent.
  unfoldable pub new_notes : ℕ → Address → Address → Items
  new_notes zero p next = empty
  new_notes (suc n) p next = item (note next (some p) qt.note_name []) (new_notes n p (suc next))

  unfoldable pub insert_rows : ℤ → ℤ → Option QModelIndex → NotesModel → Option Edited
  insert_rows row (negsuc c) parent m = some (refused m)
  insert_rows row (pos zero) parent m = some (refused m)
  insert_rows (negsuc r) (pos (suc c)) parent m = with_folder m parent (λ root a items. none)
  insert_rows (pos row) (pos (suc c)) parent m = with_folder m parent (λ root a items.
      insert_new m parent row (new_notes (suc c) a m.next) (m.next + suc c) root a items)

  unfoldable pub insert_folder : ℤ → Option QModelIndex → NotesModel → Option Edited
  insert_folder (negsuc r) parent m = with_folder m parent (λ root a items. none)
  insert_folder (pos row) parent m = with_folder m parent (λ root a items.
      insert_new m parent row (item (folder m.next (some a) qt.folder_name empty) empty)
        (suc m.next) root a items)

-- The erased objects are destroyed with all that is in them.
unfoldable pub erase_rows :
    NotesModel → Option QModelIndex → ℕ → ℕ → NoteEntity → Address → Items → Option Edited
erase_rows m parent row count root a items =
    if ltb (row + count) (2 ^ 31)
    then if ltb (size items) (row + count)
      then some (refused m)
      else some (
        true,
        record m { notes = some (change a (map_items (erase_at row count)) root) },
        begin_remove_rows parent row (row + count) ∷ end_insert_rows ∷ [],
      )
    else none

unfoldable pub remove_rows : ℤ → ℤ → Option QModelIndex → NotesModel → Option Edited
remove_rows row (negsuc c) parent m = some (refused m)
remove_rows row (pos zero) parent m = some (refused m)
remove_rows (negsuc r) (pos (suc c)) parent m = some (refused m)
remove_rows (pos row) (pos (suc c)) parent m =
    with_folder m parent (erase_rows m parent row (suc c))
