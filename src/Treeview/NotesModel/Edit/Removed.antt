-- ===== src/Treeview/NotesModel/Edit/Removed.antt =====
-- treeview/src/notesmodel.cpp: removeRows takes out the rows that it is asked for, and no others.
use cosec_examples.Prelude.{
  ℕ, zero, suc, ◌+◌, ◌-◌, ◌^◌, ◌≤◌, ◌<◌, ◌≡◌, refl, ap, ◌∙◌, true, false, Option, some, [], ◌∷◌,
  ltb, arith,
}
use cosec_examples.Treeview.Notes.{NoteEntity, note, folder, Items, empty, item, size}
use cosec_examples.Treeview.NotesModel.{
  pos, QModelIndex, NotesModel, begin_remove_rows, end_insert_rows, this, items_of, item_at, change,
  target, row_count,
}
use cosec_examples.Treeview.NotesModel.Edit.{
  append, take_items, drop_items, erase_at, map_items, erase_rows, remove_rows,
}
use cosec_examples.Treeview.NotesModel.Edit.Kept.{size-erase_at}
use cosec_examples.Treeview.NotesModel.Edit.Rows.{Inv, remove_rows-Inv}
use cosec_examples.Treeview.NotesModel.Edit.RowCount.{
  target-change, with_folder-some, row_count-change,
}

item_at-drop_items : (n i : ℕ) (es : Items) → item_at (drop_items n es) i ≡ item_at es (n + i)
unfolding drop_items item_at
item_at-drop_items zero i es = ap (item_at es) {x = i} (omega arith)
item_at-drop_items (suc n) i empty = refl
item_at-drop_items (suc n) i (item e es) =
    item_at-drop_items n i es ∙ ap (item_at (item e es)) {x = suc (n + i)} (omega arith)

-- In front of what is put behind the first rows, they stand.
item_at-below :
    (n i : ℕ) (es rest : Items)
    → n ≤ size es
    → i < n
    → item_at (append (take_items n es) rest) i ≡ item_at es i
unfolding append take_items item_at size
item_at-below zero i es rest h k = absurd (omega (arith, k))
item_at-below (suc n) i empty rest h k = absurd (omega (arith, h))
item_at-below (suc n) zero (item e es) rest h k = refl
item_at-below (suc n) (suc i) (item e es) rest h k =
    item_at-below n i es rest (omega (arith, h)) (omega (arith, k))

item_at-behind :
    (n i : ℕ) (es rest : Items)
    → n ≤ size es
    → item_at (append (take_items n es) rest) (n + i) ≡ item_at rest i
unfolding append take_items item_at size
item_at-behind zero i es rest h = ap (item_at rest) {x = 0 + i} (omega arith)
item_at-behind (suc n) i empty rest h = absurd (omega (arith, h))
item_at-behind (suc n) i (item e es) rest h =
    ap (item_at (item e (append (take_items n es) rest))) {x = suc n + i} {y = suc (n + i)}
      (omega arith)
    ∙ item_at-behind n i es rest (omega (arith, h))

items_of-map_items :
    (p : NoteEntity) (g : Items → Items) (items : Items)
    → items_of p ≡ some items
    → items_of (map_items g p) ≡ some (g items)
unfolding items_of map_items
items_of-map_items (note c parent name text) g items h = absurd (cc)
items_of-map_items (folder c parent name es) g items h =
    let same : es ≡ items = cc in ap (λ k. some (g k)) same

-- The folder has lost `count` rows from `row` on.
pub record Lost (items : Items) (row count : ℕ) (parent : Option QModelIndex) (m : NotesModel)
    : Type 0 where
  pub root : NoteEntity
  pub notes : m.notes ≡ some root
  pub holder : NoteEntity
  pub there : target root parent ≡ some holder
  pub left : Items
  pub items_left : items_of holder ≡ some left
  pub fewer : row_count m parent ≡ some (size items - count)
  pub before : (i : ℕ) → i < row → item_at left i ≡ item_at items i
  pub behind : (i : ℕ) → item_at left (row + i) ≡ item_at items (row + count + i)

module _ (m : NotesModel) (root p : NoteEntity) (items : Items) (parent : Option QModelIndex)
    (row n : ℕ) (mr : m.notes ≡ some root) (ht : target root parent ≡ some p)
    (hi : items_of p ≡ some items) (small : row + suc n < 2 ^ 31) where
  abbrev after : NotesModel
  after = record m { notes = some (change (this p) (map_items (erase_at row (suc n))) root) }

  after-Lost : row + suc n ≤ size items → Lost items row (suc n) parent after
  unfolding erase_at
  after-Lost within = record {
    root = change (this p) (map_items (erase_at row (suc n))) root;
    notes = refl;
    holder = map_items (erase_at row (suc n)) p;
    there = target-change root p parent (erase_at row (suc n)) ht;
    left = erase_at row (suc n) items;
    items_left = items_of-map_items p (erase_at row (suc n)) items hi;
    fewer =
        row_count-change root p parent (erase_at row (suc n)) items m.next ht hi
        ∙ ap some (size-erase_at row (suc n) items within);
    before = λ i h.
        item_at-below row i items (drop_items (suc n) (drop_items row items))
          (omega (arith, within)) h;
    behind = λ i.
        item_at-behind row i items (drop_items (suc n) (drop_items row items))
          (omega (arith, within))
        ∙ item_at-drop_items (suc n) i (drop_items row items)
        ∙ item_at-drop_items row (suc n + i) items
        ∙ ap (item_at items) {x = row + (suc n + i)} (omega arith);
  }

  removes :
      row + suc n ≤ size items
      → remove_rows (pos row) (pos (suc n)) parent m
        ≡ some (true, after, begin_remove_rows parent row (row + suc n) ∷ end_insert_rows ∷ [])
  unfolding remove_rows erase_rows
  removes within =
      let below : ltb (row + suc n) (2 ^ 31) ≡ true = ground arith in
      let there : ltb (size items) (row + suc n) ≡ false = ground arith in
      with_folder-some m root p items parent row n mr ht hi _ ∙ rw (below, there) refl

  -- removeRows of one row or more, which end before 2 ^ 31, in a folder that is there: if the folder has these
  -- rows, it returns true; the folder has that many rows fewer, the objects before and behind them are left in
  -- their order and no others; the pointers to the parents are right and the addresses different, if they
  -- were; and the removal that is begun ends by the signal for the end of an insertion. If the folder
  -- does not have them all, it returns false and changes nothing.
  pub remove_rows-Lost :
      (row + suc n ≤ size items
        → Inv m
        → (m' : NotesModel) × (remove_rows (pos row) (pos (suc n)) parent m
            ≡ some (true, m', begin_remove_rows parent row (row + suc n) ∷ end_insert_rows ∷ []))
          × Lost items row (suc n) parent m'
          × Inv m')
      × (size items < row + suc n
          → remove_rows (pos row) (pos (suc n)) parent m ≡ some (false, m, []))
  unfolding remove_rows erase_rows
  remove_rows-Lost = (
    λ within v. (
      after,
      removes within,
      after-Lost within,
      remove_rows-Inv (pos row) (pos (suc n)) parent m v (removes within),
    ),
    λ beyond.
        let below : ltb (row + suc n) (2 ^ 31) ≡ true = ground arith in
        let out : ltb (size items) (row + suc n) ≡ true = ground arith in
        with_folder-some m root p items parent row n mr ht hi _ ∙ rw (below, out) refl,
  )
