-- ===== src/Treeview/NotesModel/Names.antt =====
-- treeview/src/notesmodel.cpp: columnCount(), flags(), data() and setData().
use cosec_examples.Prelude.{
  ℕ, ◌≡◌, refl, Bool, true, false, Option, none, some, List, [], ◌∷◌, arith,
}
use cosec_examples.Treeview.Notes.{
  QString, Address, NoteEntity, note, folder, Items, empty, item, set_name,
}
use cosec_examples.Treeview.NotesModel.{
  QModelIndex, NotesModel, this, name_, items_of, find, find_items, change, change_items,
}

pub data Role : Type 0 where
  display_role edit_role font_role other_role : Role

pub data QVariant : Type 0 where
  invalid bold_font : QVariant
  string_value : QString → QVariant

pub data ItemFlag : Type 0 where
  is_enabled is_selectable is_editable is_drag_enabled is_drop_enabled never_has_children : ItemFlag

pub column_count : NotesModel → ℕ
column_count m = elim m.notes [ none ↦ 0 | some root ↦ 1 ]

pub flags_of : NoteEntity → List ItemFlag
flags_of e =
    is_enabled
    ∷ is_selectable
    ∷ is_editable
    ∷ is_drag_enabled
    ∷ elim (items_of e) [ none ↦ never_has_children ∷ [] | some items ↦ is_drop_enabled ∷ [] ]

pub flags : NotesModel → Option QModelIndex → Option (List ItemFlag)
flags m index = elim m.notes [
  | none ↦ some []
  | some root ↦ elim index [
    | none ↦ some (is_drop_enabled ∷ [])
    | some i ↦ elim (find i.internal_pointer root) [ none ↦ none | some e ↦ some (flags_of e) ]
  ]
]

pub data_of : Role → NoteEntity → QVariant
data_of display_role e = string_value (name_ e)
data_of edit_role e = string_value (name_ e)
data_of font_role e = elim (items_of e) [ none ↦ invalid | some items ↦ bold_font ]
data_of other_role e = invalid

pub data_at : Role → NotesModel → Option QModelIndex → Option QVariant
data_at other_role m index = some invalid
data_at role m none = some invalid
data_at role m (some i) = elim m.notes [
  | none ↦ some invalid
  | some root ↦ elim (find i.internal_pointer root) [ none ↦ none | some e ↦ some (data_of role e) ]
]

-- value.toString() put in for the name.
pub renamed : NotesModel → NoteEntity → Address → QString → NotesModel
renamed m root a value = record m { notes = some (change a (set_name value) root) }

pub set_data : NotesModel → Option QModelIndex → QString → Role → Option (Bool × NotesModel)
set_data m (some i) value edit_role = elim m.notes [
  | none ↦ some (false, m)
  | some root ↦ elim (find i.internal_pointer root) [
    | none ↦ none
    | some e ↦ some (true, renamed m root i.internal_pointer value)
  ]
]
set_data m index value role = some (false, m)

module _ (a : Address) (s : QString) where
  mutual
    unfolding find find_items change change_items set_name this

    find-change-none : (e : NoteEntity) → find a e ≡ none → find a (change a (set_name s) e) ≡ none
    find-change-none (note c parent name text) h = ground arith
    find-change-none (folder c parent name items) h = ground (arith, find_items-change-none items)

    find_items-change-none :
        (es : Items) → find_items a es ≡ none → find_items a (change_items a (set_name s) es) ≡ none
    find_items-change-none empty h = refl
    find_items-change-none (item e es) h =
        ground (arith, find-change-none e, find_items-change-none es)

  mutual
    unfolding find find_items change change_items set_name this

    find-change :
        (e x : NoteEntity)
        → find a e ≡ some x
        → find a (change a (set_name s) e) ≡ some (set_name s x)
    find-change (note c parent name text) x h = ground arith
    find-change (folder c parent name items) x h = ground (arith, find_items-change items x)

    find_items-change :
        (es : Items) (x : NoteEntity)
        → find_items a es ≡ some x
        → find_items a (change_items a (set_name s) es) ≡ some (set_name s x)
    find_items-change empty x h = ground arith
    find_items-change (item e es) x h =
        ground (arith, find-change e x, find_items-change es x, find-change-none e)

name_-set_name : (s : QString) (e : NoteEntity) → name_ (set_name s e) ≡ s
unfolding name_ set_name
name_-set_name s (note a parent name text) = refl
name_-set_name s (folder a parent name items) = refl

-- setData() for the edit role, at an index of an object, returns true, and from then on data() gives
-- the value for the display and the edit role.
pub set_data-data_at :
    (m : NotesModel) (root e : NoteEntity) (i : QModelIndex) (value : QString)
    → m.notes ≡ some root
    → find i.internal_pointer root ≡ some e
    → (m' : NotesModel) × (set_data m (some i) value edit_role ≡ some (true, m'))
      × (data_at edit_role m' (some i) ≡ some (string_value value))
      × (data_at display_role m' (some i) ≡ some (string_value value))
unfolding set_data data_at data_of renamed
set_data-data_at m root e i value mr h =
    let there : find i.internal_pointer (change i.internal_pointer (set_name value) root)
        ≡ some (set_name value e) =
      find-change i.internal_pointer value root e h in
    let named : name_ (set_name value e) ≡ value = name_-set_name value e in
    (renamed m root i.internal_pointer value, ground arith, ground arith, ground arith)
