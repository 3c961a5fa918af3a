-- ===== src/Treeview/NotesModel/Edit/Rows.antt =====
-- treeview/src/notesmodel.cpp: insertRows, insertFolder and removeRows.
use cosec_examples.Prelude.{
  ℕ, zero, suc, ◌+◌, ◌≤◌, ◌<◌, ◌≡◌, refl, subst, inl, inr, Bool, Option, none, some, List, ltb,
  arith, Option-cases, Bool-cases,
}
use cosec_examples.Treeview.Notes.{Address, Qt, NoteEntity, folder, Items, empty, item, size}
use cosec_examples.Treeview.NotesModel.{
  ℤ, pos, negsuc, QModelIndex, NotesModel, Signal, this, items_of, change, target,
}
use cosec_examples.Treeview.NotesModel.Tree.{count, count_items, Parented, ParentedItems}
use cosec_examples.Treeview.NotesModel.Consistent.{IsTree}
use cosec_examples.Treeview.NotesModel.Edit.{
  insert_at, erase_at, map_items, Edited, with_folder, insert_new, new_notes, insert_rows,
  insert_folder, erase_rows, remove_rows,
}
use cosec_examples.Treeview.NotesModel.Edit.Kept.{
  count_items-insert_at, count_items-erase_at, count-change, Parented-change,
  ParentedItems-insert_at, ParentedItems-erase_at,
}

-- The addresses from `next` on are free.
abbrev pub Free : Address → NoteEntity → Type 0
Free next root = (b : Address) → next ≤ b → count b root ≡ 0

-- The tree is one, and new objects get addresses that it does not have.
abbrev pub Inv : NotesModel → Type 0
Inv m = (root : NoteEntity) → m.notes ≡ some root → IsTree root × Free m.next root

with_folder-Inv :
    (m : NotesModel) (parent : Option QModelIndex)
    (f : NoteEntity → Address → Items → Option Edited) {b : Bool} {m' : NotesModel}
    {s : List Signal}
    → Inv m
    → ((root p : NoteEntity) (items : Items)
        → m.notes ≡ some root
        → f root (this p) items ≡ some (b, m', s)
        → Inv m')
    → with_folder m parent f ≡ some (b, m', s)
    → Inv m'
unfolding with_folder
with_folder-Inv m parent f {m' = m'} v step h = elim (Option-cases m.notes) [
  | inl e0 ↦ let same : m ≡ m' = ground arith in subst Inv same v
  | inr (root, e1) ↦ elim (Option-cases (target root parent)) [
    | inl t0 ↦ absurd (ground arith)
    | inr (p, t1) ↦ elim (Option-cases (items_of p)) [
      | inl i0 ↦ let same : m ≡ m' = ground arith in subst Inv same v
      | inr (items, i1) ↦ step root p items e1 (ground arith)
    ]
  ]
]

-- What a change of the items of one folder needs to keep the invariant.
change-Inv :
    (root : NoteEntity) (a next next' : Address) (g : Items → Items)
    → IsTree root
    → Free next root
    → next ≤ next'
    → ((es : Items) → ParentedItems (some a) es → ParentedItems (some a) (g es))
    → (k : Address → ℕ)
    → ((b : Address) (es : Items) → count_items b (g es) ≤ count_items b es + k b)
    → ((b : Address) → (k b ≤ 1) × (b < next → k b ≡ 0) × (next' ≤ b → k b ≡ 0))
    → Inv (record { notes = some (change a (map_items g) root); next = next' })
change-Inv root a next next' g v free later keeps k more fresh root' h =
    subst (λ r. IsTree r × Free next' r) (cc)
      (
        record {
          parented = Parented-change a g keeps root none v.parented;
          once = λ b.
              grind (
                arith,
                count-change a g b (k b) (more b) root (v.once a),
                v.once b,
                free b,
                fresh b,
              );
        },
        λ b q. grind (arith, count-change a g b (k b) (more b) root (v.once a), free b, fresh b),
      )

insert_new-Inv :
    (m : NotesModel) (parent : Option QModelIndex) (row : ℕ) (new : Items) (next a : Address)
    (root : NoteEntity) (items : Items) {b : Bool} {m' : NotesModel} {s : List Signal}
    → Inv m
    → m.notes ≡ some root
    → m.next ≤ next
    → ParentedItems (some a) new
    → ((c : Address)
        → (count_items c new ≤ 1)
          × (c < m.next → count_items c new ≡ 0)
          × (next ≤ c → count_items c new ≡ 0))
    → insert_new m parent row new next root a items ≡ some (b, m', s)
    → Inv m'
unfolding insert_new
insert_new-Inv m parent row new next a root items {m' = m'} v mr later parented fresh h =
    let (tree, free) = v root mr in
    let same : record { notes = some (change a (map_items (insert_at row new)) root); next = next }
        ≡ m' =
      ground arith in
    subst Inv same (
      change-Inv root a m.next next (insert_at row new) tree free later
        (λ es. ParentedItems-insert_at (some a) row new es parented) (λ c. count_items c new)
        (λ c es. omega (arith, count_items-insert_at c row new es)) fresh)

module _ (qt : Qt) where
  new_notes-Parented : (n : ℕ) (p next : Address) → ParentedItems (some p) (new_notes qt n p next)
  unfolding new_notes ParentedItems Parented
  new_notes-Parented zero p next = tt
  new_notes-Parented (suc n) p next = (refl, new_notes-Parented n p (suc next))

  new_notes-fresh :
      (n : ℕ) (p next c : Address)
      → (count_items c (new_notes qt n p next) ≤ 1)
        × (c < next → count_items c (new_notes qt n p next) ≡ 0)
        × (next + n ≤ c → count_items c (new_notes qt n p next) ≡ 0)
  unfolding new_notes count count_items
  new_notes-fresh zero p next c = (omega arith, λ q. refl, λ q. refl)
  new_notes-fresh (suc n) p next c =
      let rest = new_notes-fresh n p (suc next) c in
      (ground arith, λ q. ground arith, λ q. ground arith)

  -- insertRows that returns leaves a tree whose pointers to the parents are right and whose objects
  -- have an address each, if it was one.
  pub insert_rows-Inv :
      (row n : ℤ) (parent : Option QModelIndex) (m : NotesModel) {b : Bool} {m' : NotesModel}
      {s : List Signal}
      → Inv m
      → insert_rows qt row n parent m ≡ some (b, m', s)
      → Inv m'
  unfolding insert_rows
  insert_rows-Inv row (negsuc n) parent m {m' = m'} v h =
      let same : m ≡ m' = ground arith in subst Inv same v
  insert_rows-Inv row (pos zero) parent m {m' = m'} v h =
      let same : m ≡ m' = ground arith in subst Inv same v
  insert_rows-Inv (negsuc r) (pos (suc n)) parent m v h =
      with_folder-Inv m parent (λ root a items. none) v (λ root p items mr k. absurd (ground arith))
        h
  insert_rows-Inv (pos r) (pos (suc n)) parent m v h =
      with_folder-Inv m parent _ v
        (λ root p items mr.
          insert_new-Inv m parent r (new_notes qt (suc n) (this p) m.next) (m.next + suc n) (this p)
            root items v mr (omega arith) (new_notes-Parented (suc n) (this p) m.next)
            (new_notes-fresh (suc n) (this p) m.next))
        h

  -- insertFolder that returns leaves a tree whose pointers to the parents are right and whose objects
  -- have an address each, if it was one.
  pub insert_folder-Inv :
      (row : ℤ) (parent : Option QModelIndex) (m : NotesModel) {b : Bool} {m' : NotesModel}
      {s : List Signal}
      → Inv m
      → insert_folder qt row parent m ≡ some (b, m', s)
      → Inv m'
  unfolding insert_folder ParentedItems Parented count count_items
  insert_folder-Inv (negsuc r) parent m v h =
      with_folder-Inv m parent (λ root a items. none) v (λ root p items mr k. absurd (ground arith))
        h
  insert_folder-Inv (pos r) parent m v h =
      with_folder-Inv m parent _ v
        (λ root p items mr.
          insert_new-Inv m parent r
            (item (folder m.next (some (this p)) qt.folder_name empty) empty) (suc m.next) (this p)
            root items v mr (omega arith) ((refl, tt), tt)
            (λ c. (ground arith, λ q. ground arith, λ q. ground arith)))
        h

erase_rows-Inv :
    (m : NotesModel) (parent : Option QModelIndex) (row n : ℕ) (a : Address) (root : NoteEntity)
    (items : Items) {b : Bool} {m' : NotesModel} {s : List Signal}
    → Inv m
    → m.notes ≡ some root
    → erase_rows m parent row n root a items ≡ some (b, m', s)
    → Inv m'
unfolding erase_rows
erase_rows-Inv m parent row n a root items {m' = m'} v mr h =
    let (tree, free) = v root mr in
    elim (Bool-cases (ltb (size items) (row + n))) [
      | inl out ↦ let same : m ≡ m' = ground arith in subst Inv same v
      | inr fits ↦
          let same : record m { notes = some (change a (map_items (erase_at row n)) root) } ≡ m' =
            ground arith in
          subst Inv same (
            change-Inv root a m.next m.next (erase_at row n) tree free (omega arith)
              (ParentedItems-erase_at (some a) row n) (λ c. 0)
              (λ c es. omega (arith, count_items-erase_at c row n es))
              (λ c. (omega arith, λ q. refl, λ q. refl)))
    ]

-- removeRows that returns leaves a tree whose pointers to the parents are right and whose objects
-- have an address each, if it was one.
pub remove_rows-Inv :
    (row n : ℤ) (parent : Option QModelIndex) (m : NotesModel) {b : Bool} {m' : NotesModel}
    {s : List Signal}
    → Inv m
    → remove_rows row n parent m ≡ some (b, m', s)
    → Inv m'
unfolding remove_rows
remove_rows-Inv row (negsuc n) parent m {m' = m'} v h =
    let same : m ≡ m' = ground arith in subst Inv same v
remove_rows-Inv row (pos zero) parent m {m' = m'} v h =
    let same : m ≡ m' = ground arith in subst Inv same v
remove_rows-Inv (negsuc r) (pos (suc n)) parent m {m' = m'} v h =
    let same : m ≡ m' = ground arith in subst Inv same v
remove_rows-Inv (pos r) (pos (suc n)) parent m v h =
    with_folder-Inv m parent (erase_rows m parent r (suc n)) v
      (λ root p items mr. erase_rows-Inv m parent r (suc n) (this p) root items v mr) h
