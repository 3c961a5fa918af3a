-- ===== src/Treeview/NotesModel.antt =====
-- treeview/src/notesmodel.hpp, notesmodel.cpp: the item model over the tree of notes. `none` stands
-- for a step that follows a null or a dangling pointer, or leaves a vector's or an int's range.
pub mod Tree
pub mod Consistent
pub mod Edit
pub mod Drag
pub mod Names
mod Tests
use cosec_examples.Prelude.{
  ℕ, zero, suc, ◌+◌, ◌-◌, ◌^◌, Bool, true, false, ◌||◌, Option, none, some, List, [], ◌∷◌, ltb, leb,
  ◌==◌, if◌then◌else◌,
}
use cosec_examples.Treeview.Notes.{
  QString, Address, Qt, NoteEntity, note, folder, Items, empty, item, size, set_name,
}

-- An int.
pub data ℤ : Type 0 where
  pos : ℕ → ℤ
  negsuc : ℕ → ℤ

-- A valid index: its row and internalPointer(); its column is 0. `none` for an invalid one.
pub record QModelIndex : Type 0 where
  pub row : ℕ
  pub internal_pointer : Address

-- notes_, as its root folder, and the address of the next object.
pub record NotesModel : Type 0 where
  pub notes : Option NoteEntity
  pub next : Address

-- With the parent, the first row, and the row after the last.
pub data Signal : Type 0 where
  begin_reset_model end_reset_model end_insert_rows : Signal
  begin_insert_rows begin_remove_rows : Option QModelIndex → ℕ → ℕ → Signal

pub this : NoteEntity → Address
this (note a parent name text) = a
this (folder a parent name items) = a

pub parent_ : NoteEntity → Option Address
parent_ (note a parent name text) = parent
parent_ (folder a parent name items) = parent

pub name_ : NoteEntity → QString
name_ (note a parent name text) = name
name_ (folder a parent name items) = name

-- dynamic_cast<NotesFolder*>
pub items_of : NoteEntity → Option Items
items_of (note a parent name text) = none
items_of (folder a parent name items) = some items

pub item_at : Items → ℕ → Option NoteEntity
item_at empty i = none
item_at (item e es) zero = some e
item_at (item e es) (suc i) = item_at es i

-- The object at an address.
mutual
  pub find : Address → NoteEntity → Option NoteEntity
  find a (note b parent name text) = if a == b then some (note b parent name text) else none
  find a (folder b parent name items) =
      let inside = find_items a items in
      if a == b then some (folder b parent name items) else inside

  pub find_items : Address → Items → Option NoteEntity
  find_items a empty = none
  find_items a (item e es) =
      let others = find_items a es in elim (find a e) [ none ↦ others | some x ↦ some x ]

-- The object at an address, changed.
mutual
  pub change : Address → (NoteEntity → NoteEntity) → NoteEntity → NoteEntity
  change a f (note b parent name text) =
      if a == b then f (note b parent name text) else note b parent name text
  change a f (folder b parent name items) =
      let inside = change_items a f items in
      if a == b then f (folder b parent name items) else folder b parent name inside

  pub change_items : Address → (NoteEntity → NoteEntity) → Items → Items
  change_items a f empty = empty
  change_items a f (item e es) = item (change a f e) (change_items a f es)

-- parent.isValid()?maybe_folder(parent):&notes_->root(), the cast applied by the user.
pub target : NoteEntity → Option QModelIndex → Option NoteEntity
target root none = some root
target root (some i) = find i.internal_pointer root

pub index_in : Items → ℕ → Option QModelIndex
index_in items row = elim (item_at items row) [
  | none ↦ none
  | some e ↦ some (record { row = row; internal_pointer = this e })
]

pub index_of : ℕ → NoteEntity → Option QModelIndex
index_of row p = elim (items_of p) [ none ↦ none | some items ↦ index_in items row ]

pub index : NotesModel → ℤ → ℤ → Option QModelIndex → Option (Option QModelIndex)
index m (negsuc r) column parent = some none
index m (pos r) (negsuc c) parent = some none
index m (pos r) (pos (suc c)) parent = some none
index m (pos r) (pos zero) parent = elim m.notes [
  | none ↦ some none
  | some root ↦ elim (target root parent) [ none ↦ none | some p ↦ some (index_of r p) ]
]

-- The loop of parent(): the row at which the pointer stands.
pub row_of : Address → ℕ → Items → Option QModelIndex
row_of a i empty = none
row_of a i (item e es) =
    let later = row_of a (suc i) es in
    if this e == a then some (record { row = i; internal_pointer = a }) else later

-- parent->parent()->items(): the pointer to the grandparent is followed.
pub parent_index : NoteEntity → Address → Option (Option QModelIndex)
parent_index root p = elim (find p root) [
  | none ↦ none
  | some e ↦ elim (parent_ e) [
    | none ↦ none
    | some g ↦ elim (find g root) [
      | none ↦ none
      | some f ↦ elim (items_of f) [ none ↦ none | some items ↦ some (row_of p 0 items) ]
    ]
  ]
]

pub parent : NotesModel → Option QModelIndex → Option (Option QModelIndex)
parent m none = some none
parent m (some i) = elim m.notes [
  | none ↦ some none
  | some root ↦ elim (find i.internal_pointer root) [
    | none ↦ none
    | some e ↦ elim (parent_ e) [
      | none ↦ none
      | some p ↦ if p == this root then some none else parent_index root p
    ]
  ]
]

pub rows : NoteEntity → ℕ
rows p = elim (items_of p) [ none ↦ 0 | some items ↦ size items ]

pub row_count : NotesModel → Option QModelIndex → Option ℕ
row_count m parent = elim m.notes [
  | none ↦ some 0
  | some root ↦ elim (target root parent) [ none ↦ none | some p ↦ some (rows p) ]
]
