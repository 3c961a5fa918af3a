-- ===== src/GuiProgress/CopyWidget.antt =====
-- gui-progress/src/copywidget.cpp: the button that runs and cancels a copy, the end of a copy and the
-- closing of the window. A disabled button cannot be clicked, and the message box of `done` is modal.
use cosec_examples.Prelude.{
  ℕ, suc, ◌-◌, ◌≡◌, refl, sym, Bool, true, false, if◌then◌else◌, arith, subst,
}

-- `cancelled` is the copier's flag, and `copies` how many calls of copyFile have not emitted done.
pub record CopyWidget : Type 0 where
  pub running : Bool
  pub group_enabled : Bool
  pub button_enabled : Bool
  pub button_cancels : Bool
  pub cancelled : Bool
  pub copies : ℕ

unfoldable pub on_run_cancel_button_clicked : CopyWidget → CopyWidget
on_run_cancel_button_clicked w =
    if w.running then record w { button_enabled = false; cancelled = true } else record w {
      group_enabled = false;
      button_cancels = true;
      cancelled = false;
      copies = suc w.copies;
      running = true;
    }

-- QAbstractButton::click
unfoldable pub click : CopyWidget → CopyWidget
click w = if w.button_enabled then on_run_cancel_button_clicked w else w

-- CopyWidget::done, at the end of a copy.
unfoldable pub done : CopyWidget → CopyWidget
done w = record w {
  group_enabled = true;
  button_cancels = false;
  button_enabled = true;
  running = false;
  copies = w.copies - 1;
}

-- CopyWidget::closeEvent: the widget, and whether the event is accepted.
unfoldable pub close_event : CopyWidget → CopyWidget × Bool
close_event w = if w.running then (click w, false) else (w, true)

pub data Reachable : CopyWidget → Type 0 where
  shown : Reachable (record {
    running = false;
    group_enabled = true;
    button_enabled = true;
    button_cancels = false;
    cancelled = false;
    copies = 0;
  })
  clicked : {w : CopyWidget} → Reachable w → Reachable (click w)
  copied : {w : CopyWidget} → Reachable w → w.running ≡ true → Reachable (done w)
  closing : {w : CopyWidget} → Reachable w → Reachable (close_event w).0

-- What the buttons show is what goes on.
pub data Shows (w : CopyWidget) : Type 0 where
  idle :
      w.running ≡ false
      → w.group_enabled ≡ true
      → w.button_enabled ≡ true
      → w.button_cancels ≡ false
      → w.copies ≡ 0
      → Shows w
  copying :
      w.running ≡ true
      → w.group_enabled ≡ false
      → w.button_enabled ≡ true
      → w.button_cancels ≡ true
      → w.cancelled ≡ false
      → w.copies ≡ 1
      → Shows w
  cancelling :
      w.running ≡ true
      → w.group_enabled ≡ false
      → w.button_enabled ≡ false
      → w.cancelled ≡ true
      → w.copies ≡ 1
      → Shows w

-- A click when a copy can start, when one runs, and when one is being cancelled.
click_idle :
    (w : CopyWidget)
    → w.running ≡ false
    → w.button_enabled ≡ true
    → click w ≡ record w {
      group_enabled = false;
      button_cancels = true;
      cancelled = false;
      copies = suc w.copies;
      running = true;
    }
unfolding click on_run_cancel_button_clicked
click_idle w r b = ground (arith, r, b)

click_copying :
    (w : CopyWidget)
    → w.running ≡ true
    → w.button_enabled ≡ true
    → click w ≡ record w { button_enabled = false; cancelled = true }
unfolding click on_run_cancel_button_clicked
click_copying w r b = ground (arith, r, b)

click_disabled : (w : CopyWidget) → w.button_enabled ≡ false → click w ≡ w
unfolding click
click_disabled w b = ground (arith, b)

click-Shows : (w : CopyWidget) → Shows w → Shows (click w)
click-Shows w (idle r g b c n) =
    subst Shows (sym (click_idle w r b)) (copying refl refl b refl refl (omega (arith, n)))
click-Shows w (copying r g b c k n) =
    subst Shows (sym (click_copying w r b)) (cancelling r g refl refl n)
click-Shows w (cancelling r g b k n) = subst Shows (sym (click_disabled w b)) (cancelling r g b k n)

if-Shows :
    (b : Bool) (x y : CopyWidget × Bool) → Shows x.0 → Shows y.0 → Shows (if b then x else y).0
if-Shows true x y h k = h
if-Shows false x y h k = k

close_event-Shows : (w : CopyWidget) → Shows w → Shows (close_event w).0
unfolding close_event
close_event-Shows w h = if-Shows w.running (click w, false) (w, true) (click-Shows w h) h

done-Shows : (w : CopyWidget) → w.running ≡ true → Shows w → Shows (done w)
unfolding done
done-Shows w r (idle s _ _ _ n) = absurd (cc)
done-Shows w r (copying _ _ _ _ _ n) = idle refl refl refl refl (omega (arith, n))
done-Shows w r (cancelling _ _ _ _ n) = idle refl refl refl refl (omega (arith, n))

-- Whatever is clicked, and when a window is closed or a copy ends: no second copy starts while one runs,
-- the button shows what it would do, and once a copy is cancelled it is disabled until the copy ends.
pub Reachable-Shows : (w : CopyWidget) → Reachable w → Shows w
Reachable-Shows _ shown = idle refl refl refl refl refl
Reachable-Shows _ (clicked {w} r) = click-Shows w (Reachable-Shows w r)
Reachable-Shows _ (copied {w} r h) = done-Shows w h (Reachable-Shows w r)
Reachable-Shows _ (closing {w} r) = close_event-Shows w (Reachable-Shows w r)

-- The window is closed only when no copy is under way.
pub close_event-copies : (w : CopyWidget) → Reachable w → (close_event w).1 ≡ true → w.copies ≡ 0
unfolding close_event
close_event-copies w r h = go (Reachable-Shows w r)
  where
    go : Shows w → w.copies ≡ 0
    go (idle _ _ _ _ n) = n
    go (copying e _ _ _ _ _) = absurd (ground (arith, e, h))
    go (cancelling e _ _ _ _) = absurd (ground (arith, e, h))
