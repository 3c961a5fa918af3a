-- ===== src/Treeview/NotesModel/Drag/Copied.antt =====
-- treeview/src/notesmodel.cpp: dropMimeData() of what mimeData() has given.
use cosec_examples.Prelude.{
  ℕ, suc, ◌+◌, ◌^◌, ◌%◌, ◌≤◌, ◌<◌, ◌≡◌, refl, sym, ap, ◌∙◌, true, false, Option, some, List, [],
  ◌∷◌, ◌++◌, append_assoc, append-nil, ltb, leb, ◌&&◌, if◌then◌else◌, arith,
}
use cosec_examples.Treeview.Notes.{
  Address, Bytes, Qt, NoteEntity, note, folder, Items, empty, item, size, set_parent, ok,
  length_error, and_then, write, write_items, read_items,
}
use cosec_examples.Treeview.Notes.RoundTrip.{
  TakesBack, depth, depth_items, Fits, FitsItems, contents, contents_items, Orphaned, OrphanedItems,
  read-write,
}
use cosec_examples.Treeview.NotesModel.{
  ℤ, QModelIndex, NotesModel, Signal, begin_insert_rows, end_insert_rows, this, items_of, change,
  target, parent,
}
use cosec_examples.Treeview.NotesModel.Edit.{insert_at, map_items, insert_new}
use cosec_examples.Treeview.NotesModel.Drag.{
  entities, serialized, mime_data, adopted, read_dropped, drop_row, insert_dropped, drop_in,
  drop_mime_data,
}

-- The object has the parent, but nothing in it has one.
abbrev pub Adopted : Address → NoteEntity → Type 0
Adopted p (note a parent name text) = parent ≡ some p
Adopted p (folder a parent name items) = (parent ≡ some p) × OrphanedItems items

abbrev pub AdoptedItems : Address → Items → Type 0
AdoptedItems p empty = Unit
AdoptedItems p (item e es) = Adopted p e × AdoptedItems p es

contents-set_parent : (q : Option Address) (e : NoteEntity) → contents (set_parent q e) ≡ contents e
unfolding contents set_parent
contents-set_parent q (note a parent name text) = refl
contents-set_parent q (folder a parent name items) = refl

set_parent-Adopted : (p : Address) (e : NoteEntity) → Orphaned e → Adopted p (set_parent (some p) e)
unfolding set_parent Orphaned
set_parent-Adopted p (note a parent name text) v = refl
set_parent-Adopted p (folder a parent name items) v = (refl, v.1)

module _ (qt : Qt) (law : TakesBack qt) where
  adopted-write :
      (fuel : ℕ) (p : Address) (e : NoteEntity) (rest : Bytes) (next : Address)
      → depth e ≤ fuel
      → Fits e
      → (c : NoteEntity) × (next' : Address) × (adopted qt fuel p (write qt e ++ rest) next
          ≡ ok (c, rest, next'))
        × (contents c ≡ contents e)
        × Adopted p c
  unfolding adopted and_then
  adopted-write fuel p e rest next h fits =
      let (c, next', back, same, alone) = read-write qt law e fuel rest next h fits in
      (
        set_parent (some p) c,
        next',
        ap (λ o. and_then o (λ r. ok (set_parent (some p) r.0, r.1, r.2))) back,
        contents-set_parent (some p) c ∙ same,
        set_parent-Adopted p c alone,
      )

  adopted-write_items :
      (fuel : ℕ) (p : Address) (es : Items) (rest : Bytes) (next : Address)
      → depth_items es ≤ fuel
      → FitsItems es
      → (cs : Items) × (next' : Address) × (read_items
            (adopted qt fuel p)
            (size es)
            (write_items qt es ++ rest)
            next
          ≡ ok (cs, rest, next'))
        × (contents_items cs ≡ contents_items es)
        × (size cs ≡ size es)
        × AdoptedItems p cs
  unfolding read_items write_items and_then size depth_items FitsItems contents_items
  adopted-write_items fuel p empty rest next h fits = (empty, next, refl, refl, refl, tt)
  adopted-write_items fuel p (item e es) rest next h fits =
      let (c, next', first, same, mine) =
        adopted-write fuel p e (write_items qt es ++ rest) next (omega arith) fits.0 in
      let (cs, next'', others, same', many, ours) =
        adopted-write_items fuel p es rest next' (omega arith) fits.1 in
      (
        item c cs,
        next'',
        rw (append_assoc, first, others) refl,
        rw (same, same') refl,
        ap suc many,
        (mine, ours),
      )

  serialized-bytes :
      (root : NoteEntity) (is : List QModelIndex) (es : Items) (ba : Bytes)
      → entities root is ≡ some es
      → serialized qt root is ≡ some (some ba)
      → size es < 2 ^ 31
      → ba ≡ qt.put_int (size es) ++ write_items qt es
  unfolding serialized
  serialized-bytes root is es ba he hs few =
      let small : size es % 2 ^ 32 ≡ size es = omega arith in
      let written : qt.put_int (size es % 2 ^ 32) ++ write_items qt es ≡ ba = ground arith in
      sym written ∙ ap (λ n. qt.put_int n ++ write_items qt es) small

  read_dropped-bytes :
      (fuel n : ℕ) (p : Address) (rest : Bytes) (next : Address)
      → n < 2 ^ 31
      → read_dropped qt fuel p (qt.put_int n ++ rest) next
        ≡ read_items (adopted qt fuel p) n rest next
  unfolding read_dropped
  read_dropped-bytes fuel n p rest next few =
      let yes : ltb n (2 ^ 31) ≡ true = ground arith in
      ap
        (λ r.
          if ltb r.0 (2 ^ 31) then read_items (adopted qt fuel p) r.0 r.1 next else length_error)
        (law.int n rest (omega arith))
      ∙ rw (yes) refl

  read_dropped-serialized :
      (fuel : ℕ) (p : Address) (root : NoteEntity) (is : List QModelIndex) (es : Items) (ba : Bytes)
      (next : Address)
      → entities root is ≡ some es
      → serialized qt root is ≡ some (some ba)
      → depth_items es ≤ fuel
      → FitsItems es
      → size es < 2 ^ 31
      → (cs : Items) × (next' : Address) × (read_dropped qt fuel p ba next ≡ ok (cs, [], next'))
        × (contents_items cs ≡ contents_items es)
        × (size cs ≡ size es)
        × AdoptedItems p cs
  read_dropped-serialized fuel p root is es ba next he hs h fits few =
      let bytes = serialized-bytes root is es ba he hs few in
      let (cs, next', back, same, many, ours) = adopted-write_items fuel p es [] next h fits in
      (
        cs,
        next',
        ap (λ b. read_dropped qt fuel p b next) bytes
            ∙ read_dropped-bytes fuel (size es) p (write_items qt es) next few
            ∙ ap (λ b. read_items (adopted qt fuel p) (size es) b next)
                (sym (append-nil (write_items qt es)))
            ∙ back,
        same,
        many,
        ours,
      )

  mime_data-serialized :
      (m : NotesModel) (root : NoteEntity) (is : List QModelIndex) (ba : Bytes)
      → m.notes ≡ some root
      → mime_data qt is m ≡ some (some ba)
      → serialized qt root is ≡ some (some ba)
  unfolding mime_data
  mime_data-serialized m root [] ba mr h = absurd (cc)
  mime_data-serialized m root (i ∷ []) ba mr h = ground arith
  mime_data-serialized m root (i ∷ j ∷ is) ba mr h = ground arith

  module _ (fuel : ℕ) (m : NotesModel) (root p : NoteEntity) (items cs : Items) (next : Address)
      (ba : Bytes) (row : ℤ) (to : Option QModelIndex) (mr : m.notes ≡ some root)
      (ht : target root to ≡ some p) (hi : items_of p ≡ some items)
      (back : read_dropped qt fuel (this p) ba m.next ≡ ok (cs, [], next)) where
    drop-insert_dropped :
        drop_mime_data qt fuel true ba false row false to m
        ≡ insert_dropped qt fuel ba row to m root (this p) items
    unfolding drop_mime_data drop_in
    drop-insert_dropped = ground arith

    insert_dropped-insert_new :
        insert_dropped qt fuel ba row to m root (this p) items
        ≡ ok (insert_new m to (drop_row qt row items) cs next root (this p) items)
    unfolding insert_dropped and_then
    insert_dropped-insert_new =
        ap
          (λ o.
            and_then o
              (λ r. ok (insert_new m to (drop_row qt row items) r.0 r.2 root (this p) items)))
          back

  insert_new-some :
      (m : NotesModel) (to : Option QModelIndex) (row : ℕ) (cs : Items) (next a : Address)
      (root : NoteEntity) (items : Items)
      → row ≤ size items
      → row + size cs < 2 ^ 31
      → insert_new m to row cs next root a items
        ≡ some (
          true,
          record { notes = some (change a (map_items (insert_at row cs)) root); next = next },
          begin_insert_rows to row (row + size cs) ∷ end_insert_rows ∷ [],
        )
  unfolding insert_new
  insert_new-some m to row cs next a root items within small =
      let there : leb row (size items) && ltb (row + size cs) (2 ^ 31) ≡ true = ground arith in
      rw there refl

  -- What mimeData() has given for some indices, dropMimeData() puts into a folder at a row that it has
  -- or, for a negative row, at its end: copies of the objects in the same order, with the same names,
  -- texts and contents, each with the folder as its parent, while no object below them has one. No
  -- folder has more items than an int counts, and the fuel is the depth of the dragged objects or more.
  pub drop_mime_data-mime_data :
      (fuel : ℕ) (m : NotesModel) (root p : NoteEntity) (items es : Items) (is : List QModelIndex)
      (ba : Bytes) (row : ℤ) (to : Option QModelIndex)
      → m.notes ≡ some root
      → mime_data qt is m ≡ some (some ba)
      → entities root is ≡ some es
      → depth_items es ≤ fuel
      → FitsItems es
      → target root to ≡ some p
      → items_of p ≡ some items
      → drop_row qt row items ≤ size items
      → drop_row qt row items + size es < 2 ^ 31
      → (cs : Items) × (m' : NotesModel) × (s : List Signal) × (drop_mime_data qt fuel true ba false
            row false to m
          ≡ ok (some (true, m', s)))
        × (m'.notes
            ≡ some (change (this p) (map_items (insert_at (drop_row qt row items) cs)) root))
        × (contents_items cs ≡ contents_items es)
        × AdoptedItems (this p) cs
  drop_mime_data-mime_data fuel m root p items es is ba row to mr hm he h fits ht hi within small =
      let (cs, next', back, same, many, ours) =
        read_dropped-serialized fuel (this p) root is es ba m.next he
          (mime_data-serialized m root is ba mr hm) h fits (omega arith) in
      (
        cs,
        record {
          notes = some (change (this p) (map_items (insert_at (drop_row qt row items) cs)) root);
          next = next';
        },
        begin_insert_rows to (drop_row qt row items) (drop_row qt row items + size cs)
            ∷ end_insert_rows
            ∷ [],
        drop-insert_dropped fuel m root p items cs next' ba row to mr ht hi back
            ∙ insert_dropped-insert_new fuel m root p items cs next' ba row to mr ht hi back
            ∙ ap ok (
                insert_new-some m to (drop_row qt row items) cs next' (this p) root items within
                  (omega arith)),
        refl,
        same,
        ours,
      )
