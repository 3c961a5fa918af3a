-- ===== src/Treeview/NotesModel/Edit/Kept.antt =====
-- treeview/src/notesmodel.cpp: what a change of a folder's items keeps of the tree.
use cosec_examples.Prelude.{
  ℕ, zero, suc, ◌+◌, ◌-◌, ◌≤◌, ◌≡◌, refl, sym, subst, inl, inr, Option, none, some, ◌==◌, arith,
  Bool-cases,
}
use cosec_examples.Treeview.Notes.{Address, NoteEntity, note, folder, Items, empty, item, size}
use cosec_examples.Treeview.NotesModel.{this, find, find_items, change, change_items}
use cosec_examples.Treeview.NotesModel.Tree.{count, count_items, Parented, ParentedItems}
use cosec_examples.Treeview.NotesModel.Edit.{
  append, take_items, drop_items, insert_at, erase_at, map_items,
}

count_items-append :
    (b : Address) (xs ys : Items)
    → count_items b (append xs ys) ≡ count_items b xs + count_items b ys
unfolding append count_items
count_items-append b empty ys = ground arith
count_items-append b (item e es) ys = omega (arith, count_items-append b es ys)

count_items-take_items :
    (b : Address) (n : ℕ) (es : Items)
    → count_items b (take_items n es) + count_items b (drop_items n es) ≡ count_items b es
unfolding take_items drop_items count_items
count_items-take_items b zero es = ground arith
count_items-take_items b (suc n) empty = ground arith
count_items-take_items b (suc n) (item e es) = omega (arith, count_items-take_items b n es)

pub count_items-insert_at :
    (b : Address) (row : ℕ) (new es : Items)
    → count_items b (insert_at row new es) ≡ count_items b es + count_items b new
unfolding insert_at
count_items-insert_at b row new es = omega (
  arith,
  count_items-append b (take_items row es) (append new (drop_items row es)),
  count_items-append b new (drop_items row es),
  count_items-take_items b row es,
)

pub count_items-erase_at :
    (b : Address) (row n : ℕ) (es : Items) → count_items b (erase_at row n es) ≤ count_items b es
unfolding erase_at
count_items-erase_at b row n es = omega (
  arith,
  count_items-append b (take_items row es) (drop_items n (drop_items row es)),
  count_items-take_items b n (drop_items row es),
  count_items-take_items b row es,
)

pub ParentedItems-append :
    (p : Option Address) (xs ys : Items)
    → ParentedItems p xs
    → ParentedItems p ys
    → ParentedItems p (append xs ys)
unfolding append ParentedItems
ParentedItems-append p empty ys u v = v
ParentedItems-append p (item e es) ys u v = (u.0, ParentedItems-append p es ys u.1 v)

size-append : (xs ys : Items) → size (append xs ys) ≡ size xs + size ys
unfolding append size
size-append empty ys = ground arith
size-append (item e es) ys = omega (arith, size-append es ys)

size-take_items : (n : ℕ) (es : Items) → size (take_items n es) + size (drop_items n es) ≡ size es
unfolding take_items drop_items size
size-take_items zero es = ground arith
size-take_items (suc n) empty = ground arith
size-take_items (suc n) (item e es) = omega (arith, size-take_items n es)

size-drop_items : (n : ℕ) (es : Items) → size (drop_items n es) ≡ size es - n
unfolding drop_items size
size-drop_items zero es = omega arith
size-drop_items (suc n) empty = omega arith
size-drop_items (suc n) (item e es) = omega (arith, size-drop_items n es)

pub size-insert_at : (row : ℕ) (new es : Items) → size (insert_at row new es) ≡ size es + size new
unfolding insert_at
size-insert_at row new es = omega (
  arith,
  size-append (take_items row es) (append new (drop_items row es)),
  size-append new (drop_items row es),
  size-take_items row es,
)

pub size-erase_at :
    (row n : ℕ) (es : Items) → row + n ≤ size es → size (erase_at row n es) ≡ size es - n
unfolding erase_at
size-erase_at row n es h = omega (
  arith,
  size-append (take_items row es) (drop_items n (drop_items row es)),
  size-take_items row es,
  size-drop_items row es,
  size-drop_items n (drop_items row es),
)

module _ (a : Address) (g : Items → Items) where
  mutual
    unfolding count count_items change change_items map_items

    change-none :
        (e : NoteEntity) (b : Address)
        → count a e ≡ 0
        → count b (change a (map_items g) e) ≡ count b e
    change-none (note c parent name text) b h = ground arith
    change-none (folder c parent name items) b h = ground (arith, change_items-none items b)

    change_items-none :
        (es : Items) (b : Address)
        → count_items a es ≡ 0
        → count_items b (change_items a (map_items g) es) ≡ count_items b es
    change_items-none empty b h = refl
    change_items-none (item e es) b h =
        omega (arith, change-none e b (omega arith), change_items-none es b (omega arith))

  module _ (b : Address) (k : ℕ)
      (more : (es : Items) → count_items b (g es) ≤ count_items b es + k) where
    mutual
      unfolding count count_items change change_items map_items

      -- An address occurs in the changed tree as often as before, and as often as in what is new.
      pub count-change :
          (e : NoteEntity) → count a e ≤ 1 → count b (change a (map_items g) e) ≤ count b e + k
      count-change (note c parent name text) h = ground arith
      count-change (folder c parent name items) h =
          ground (arith, count_items-change_items items, more items)

      count_items-change_items :
          (es : Items)
          → count_items a es ≤ 1
          → count_items b (change_items a (map_items g) es) ≤ count_items b es + k
      count_items-change_items empty h = ground arith
      count_items-change_items (item e es) h = ground (
        arith,
        count-change e,
        count_items-change_items es,
        change-none e b,
        change_items-none es b,
      )

  module _ (keeps : (es : Items) → ParentedItems (some a) es → ParentedItems (some a) (g es)) where
    mutual
      unfolding change change_items map_items Parented ParentedItems

      pub Parented-change :
          (e : NoteEntity) (p : Option Address)
          → Parented p e
          → Parented p (change a (map_items g) e)
      Parented-change (note c parent name text) p v = elim (Bool-cases (a == c)) [
        | inl e0 ↦ rw e0 v
        | inr e1 ↦ rw e1 v
      ]
      Parented-change (folder c parent name items) p v = elim (Bool-cases (a == c)) [
        | inl e0 ↦
            let same : a ≡ c = ground arith in
            rw e0 (
              v.0,
              subst (λ k. ParentedItems (some k) (g items)) same
                  (keeps items (subst (λ k. ParentedItems (some k) items) (sym same) v.1)),
            )
        | inr e1 ↦ rw e1 (v.0, ParentedItems-change_items items (some c) v.1)
      ]

      ParentedItems-change_items :
          (es : Items) (p : Option Address)
          → ParentedItems p es
          → ParentedItems p (change_items a (map_items g) es)
      ParentedItems-change_items empty p v = v
      ParentedItems-change_items (item e es) p v =
          (Parented-change e p v.0, ParentedItems-change_items es p v.1)

  mutual
    unfolding find find_items change change_items map_items this

    find-change-none : (e : NoteEntity) → find a e ≡ none → find a (change a (map_items g) e) ≡ none
    find-change-none (note c parent name text) h = ground arith
    find-change-none (folder c parent name items) h = ground (arith, find_items-change-none items)

    find_items-change-none :
        (es : Items)
        → find_items a es ≡ none
        → find_items a (change_items a (map_items g) es) ≡ none
    find_items-change-none empty h = refl
    find_items-change-none (item e es) h =
        ground (arith, find-change-none e, find_items-change-none es)

  mutual
    unfolding find find_items change change_items map_items this

    -- The changed folder is found where the folder was.
    pub find-change :
        (e x : NoteEntity)
        → find a e ≡ some x
        → find a (change a (map_items g) e) ≡ some (map_items g x)
    find-change (note c parent name text) x h = ground arith
    find-change (folder c parent name items) x h = ground (arith, find_items-change items x)

    find_items-change :
        (es : Items) (x : NoteEntity)
        → find_items a es ≡ some x
        → find_items a (change_items a (map_items g) es) ≡ some (map_items g x)
    find_items-change empty x h = ground arith
    find_items-change (item e es) x h =
        ground (arith, find-change e x, find_items-change es x, find-change-none e)

pub ParentedItems-take_items :
    (p : Option Address) (n : ℕ) (es : Items)
    → ParentedItems p es
    → ParentedItems p (take_items n es) × ParentedItems p (drop_items n es)
unfolding take_items drop_items ParentedItems
ParentedItems-take_items p zero es v = (tt, v)
ParentedItems-take_items p (suc n) empty v = (tt, tt)
ParentedItems-take_items p (suc n) (item e es) v =
    let rest = ParentedItems-take_items p n es v.1 in ((v.0, rest.0), rest.1)

pub ParentedItems-insert_at :
    (p : Option Address) (row : ℕ) (new es : Items)
    → ParentedItems p new
    → ParentedItems p es
    → ParentedItems p (insert_at row new es)
unfolding insert_at
ParentedItems-insert_at p row new es u v =
    let parts = ParentedItems-take_items p row es v in
    ParentedItems-append p (take_items row es) (append new (drop_items row es)) parts.0
      (ParentedItems-append p new (drop_items row es) u parts.1)

pub ParentedItems-erase_at :
    (p : Option Address) (row n : ℕ) (es : Items)
    → ParentedItems p es
    → ParentedItems p (erase_at row n es)
unfolding erase_at
ParentedItems-erase_at p row n es v =
    let parts = ParentedItems-take_items p row es v in
    ParentedItems-append p (take_items row es) (drop_items n (drop_items row es)) parts.0
      (ParentedItems-take_items p n (drop_items row es) parts.1).1
