-- ===== src/Treeview/NotesModel/Edit/RowCount.antt =====
-- treeview/src/notesmodel.cpp: rowCount() after a change, and after insertRows.
use cosec_examples.Prelude.{
  ℕ, zero, suc, ◌+◌, ◌^◌, ◌≤◌, ◌<◌, ◌≡◌, refl, sym, subst, ap, ◌∙◌, Bool, true, Option, none, some,
  List, [], ◌∷◌, ◌&&◌, ltb, leb, arith,
}
use cosec_examples.Treeview.Notes.{Address, Qt, NoteEntity, note, folder, Items, size}
use cosec_examples.Treeview.NotesModel.{
  pos, QModelIndex, NotesModel, Signal, begin_insert_rows, end_insert_rows, this, items_of, find,
  change, target, rows, row_count,
}
use cosec_examples.Treeview.NotesModel.Tree.{find-this}
use cosec_examples.Treeview.NotesModel.Edit.{
  insert_at, map_items, with_folder, insert_new, new_notes, insert_rows,
}
use cosec_examples.Treeview.NotesModel.Edit.Kept.{size-insert_at, find-change}

change-this_self :
    (p : NoteEntity) (g : Items → Items) → change (this p) (map_items g) p ≡ map_items g p
unfolding change this map_items
change-this_self (note c parent name text) g = ground arith
change-this_self (folder c parent name items) g = ground arith

-- The folder that an index leads to is led to after its change.
pub target-change :
    (root p : NoteEntity) (parent : Option QModelIndex) (g : Items → Items)
    → target root parent ≡ some p
    → target (change (this p) (map_items g) root) parent ≡ some (map_items g p)
unfolding target
target-change root p none g h =
    let same : root ≡ p = cc in
    subst (λ r. some (change (this p) (map_items g) r) ≡ some (map_items g p)) (sym same)
      (ap some (change-this_self p g))
target-change root p (some j) g h =
    let here : this p ≡ j.internal_pointer = find-this j.internal_pointer root p h in
    subst (λ a. find j.internal_pointer (change a (map_items g) root) ≡ some (map_items g p))
      (sym here) (find-change j.internal_pointer g root p h)

rows-map_items :
    (p : NoteEntity) (g : Items → Items) (items : Items)
    → items_of p ≡ some items
    → rows (map_items g p) ≡ size (g items)
unfolding rows items_of map_items
rows-map_items (note c parent name text) g items h = absurd (ground arith)
rows-map_items (folder c parent name es) g items h =
    let same : es ≡ items = ground arith in ap (λ k. size (g k)) same

pub row_count-change :
    (root p : NoteEntity) (parent : Option QModelIndex) (g : Items → Items) (items : Items)
    (next : Address)
    → target root parent ≡ some p
    → items_of p ≡ some items
    → row_count (record { notes = some (change (this p) (map_items g) root); next = next }) parent
      ≡ some (size (g items))
unfolding row_count
row_count-change root p parent g items next h hi =
    ground (arith, target-change root p parent g h, rows-map_items p g items hi)

size-new_notes : (qt : Qt) (n : ℕ) (p next : Address) → size (new_notes qt n p next) ≡ n
unfolding new_notes size
size-new_notes qt zero p next = refl
size-new_notes qt (suc n) p next = ap suc (size-new_notes qt n p (suc next))

module _ (m : NotesModel) (root p : NoteEntity) (items : Items) (parent : Option QModelIndex)
    (row n : ℕ) (mr : m.notes ≡ some root) (ht : target root parent ≡ some p)
    (hi : items_of p ≡ some items) where
  pub with_folder-some :
      (f : NoteEntity → Address → Items → Option (Bool × NotesModel × List Signal))
      → with_folder m parent f ≡ f root (this p) items
  unfolding with_folder
  with_folder-some f = ground arith

  -- insertRows at a row that the folder has, of one row or more, returns true with that many rows
  -- more in the folder, and tells the views of them, where their rows stay below 2 ^ 31 - 1.
  pub insert_rows-row_count :
      (qt : Qt)
      → row ≤ size items
      → row + suc n < 2 ^ 31
      → (m' : NotesModel) × (insert_rows qt (pos row) (pos (suc n)) parent m
          ≡ some (true, m', begin_insert_rows parent row (row + suc n) ∷ end_insert_rows ∷ []))
        × (row_count m' parent ≡ some (size items + suc n))
  unfolding insert_rows insert_new
  insert_rows-row_count qt within small =
      let new = new_notes qt (suc n) (this p) m.next in
      let many : size new ≡ suc n = size-new_notes qt (suc n) (this p) m.next in
      let there : leb row (size items) && ltb (row + size new) (2 ^ 31) ≡ true = ground arith in
      let last : row + size new ≡ row + suc n = omega arith in
      (
        record {
          notes = some (change (this p) (map_items (insert_at row new)) root);
          next = m.next + suc n;
        },
        with_folder-some _ ∙ rw (there, last) refl,
        row_count-change root p parent (insert_at row new) items (m.next + suc n) ht hi
            ∙ ap some (size-insert_at row new items ∙ ap (λ k. size items + k) many),
      )
