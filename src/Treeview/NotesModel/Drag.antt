-- ===== src/Treeview/NotesModel/Drag.antt =====
-- treeview/src/notesmodel.cpp: mimeData() and dropMimeData(). What QMimeData keeps is the bytes, and
-- canDropMimeData() is its answer.
pub mod Copied
use cosec_examples.Prelude.{
  ℕ, zero, suc, ◌+◌, ◌-◌, ◌^◌, ◌%◌, Bool, true, false, not, ◌&&◌, ◌||◌, Option, none, some, List,
  [], ◌∷◌, ◌++◌, ltb, leb, ◌==◌, if◌then◌else◌,
}
use cosec_examples.Treeview.Notes.{
  QString, Address, Bytes, Qt, NoteEntity, Items, empty, item, size, set_parent, Outcome, ok,
  length_error, and_then, write_items, Reader, read_items, read,
}
use cosec_examples.Treeview.NotesModel.{
  ℤ, pos, negsuc, QModelIndex, NotesModel, Signal, find, parent, target, items_of, this,
}
use cosec_examples.Treeview.NotesModel.Edit.{Edited, refused, with_folder, insert_new}

-- *entity(index) for each index.
unfoldable pub entities : NoteEntity → List QModelIndex → Option Items
entities root [] = some empty
entities root (i ∷ is) = elim (entities root is) [
  | none ↦ none
  | some es ↦ elim (find i.internal_pointer root) [ none ↦ none | some e ↦ some (item e es) ]
]

pub same_index : Option QModelIndex → Option QModelIndex → Bool
same_index none none = true
same_index none (some j) = false
same_index (some i) none = false
same_index (some i) (some j) = i.row == j.row && i.internal_pointer == j.internal_pointer

-- Whether the loop of mimeData() finds no other parent.
unfoldable pub same_parents : NotesModel → Option QModelIndex → List QModelIndex → Option Bool
same_parents m p [] = some true
same_parents m p (i ∷ is) =
    let rest = same_parents m p is in
    elim (parent m (some i)) [ none ↦ none | some q ↦ if same_index q p then rest else some false ]

module _ (qt : Qt) where
  -- The bytes for the indices of one parent.
  unfoldable pub serialized : NoteEntity → List QModelIndex → Option (Option Bytes)
  serialized root is = elim (entities root is) [
    | none ↦ none
    | some es ↦ some (some (qt.put_int (size es % 2 ^ 32) ++ write_items qt es))
  ]

  -- A null QMimeData is `none` inside.
  unfoldable pub mime_data : List QModelIndex → NotesModel → Option (Option Bytes)
  mime_data [] m = some none
  mime_data (i ∷ []) m = elim m.notes [ none ↦ some none | some root ↦ serialized root (i ∷ []) ]
  mime_data (i ∷ j ∷ is) m = elim m.notes [
    | none ↦ some none
    | some root ↦ elim (parent m (some i)) [
      | none ↦ none
      | some p ↦ elim (same_parents m p (j ∷ is)) [
        | none ↦ none
        | some same ↦ if same then serialized root (i ∷ j ∷ is) else some none
      ]
    ]
  ]

  -- ds >> item; item->setParent(p);
  pub adopted : ℕ → Address → Reader
  adopted fuel p ds next =
      and_then (read qt fuel ds next) (λ e. ok (set_parent (some p) e.0, e.1, e.2))

  -- The count and the items, as children of the folder; `resize` refuses a negative count.
  pub read_dropped : ℕ → Address → Bytes → Address → Outcome (Items × Bytes × Address)
  read_dropped fuel p ds next =
      let n = qt.get_int ds in
      if ltb n.0 (2 ^ 31) then read_items (adopted fuel p) n.0 n.1 next else length_error

  -- if(row<0) row = int(pitems.size());
  unfoldable pub drop_row : ℤ → Items → ℕ
  drop_row (negsuc r) items = size items
  drop_row (pos r) items = r

  pub insert_dropped :
      ℕ
      → Bytes
      → ℤ
      → Option QModelIndex
      → NotesModel
      → NoteEntity
      → Address
      → Items
      → Outcome (Option Edited)
  insert_dropped fuel ba row parent m root a items =
      and_then (read_dropped fuel a ba m.next)
        (λ r. ok (insert_new m parent (drop_row row items) r.0 r.2 root a items))

  pub drop_in :
      ℕ → Bytes → ℤ → Option QModelIndex → NotesModel → NoteEntity → Outcome (Option Edited)
  drop_in fuel ba row parent m root = elim (target root parent) [
    | none ↦ ok none
    | some p ↦ elim (items_of p) [
      | none ↦ ok (some (refused m))
      | some items ↦ insert_dropped fuel ba row parent m root (this p) items
    ]
  ]

  pub drop_mime_data :
      ℕ → Bool → Bytes → Bool → ℤ → Bool → Option QModelIndex → NotesModel → Outcome (Option Edited)
  drop_mime_data fuel can_drop ba ignore row column_positive parent m = elim m.notes [
    | none ↦ ok (some (refused m))
    | some root ↦
        if column_positive || not can_drop
        then ok (some (refused m))
        else if ignore
        then ok (some (true, m, []))
        else drop_in fuel ba row parent m root
  ]
