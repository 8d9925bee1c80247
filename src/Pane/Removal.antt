-- ===== src/Pane/Removal.antt =====
-- Removing a pane from a layout.
use mathlib.Core.List.{append-nil}
use rem_cmd.Prelude.{
  ℕ, ◌≡◌, refl, sym, ◌∙◌, ◌⊎◌, inl, inr, Bool, true, false, Option, none, some, List, [], ◌==◌,
  arith, Bool-cases, Option-cases,
}
use rem_cmd.Pane.{SplitAxis, PaneLayout, pane, split_pane, split, without, contains}
use rem_cmd.Pane.Leaves.{
  panes, mem, erase, mem-append, erase-append, contains-mem, split_found, split_absent, distinct,
  distinct-erase,
}

abbrev pub option_panes : Option PaneLayout → List ℕ
option_panes none = []
option_panes (some l) = panes l

-- What `without` promises: no panic, the flag says whether the pane was there, and the remaining
-- panes are the others, in order.
pub record Removes (l : PaneLayout) (t : ℕ) : Type 0 where
  pub rest : Option PaneLayout
  pub returns : without l t ≡ some (rest, mem t (panes l))
  pub remaining : option_panes rest ≡ erase t (panes l)
  pub unchanged : (mem t (panes l) ≡ true) ⊎ (rest ≡ some l)

unchanged_without :
    (l : PaneLayout) (t : ℕ) (r : Removes l t) → mem t (panes l) ≡ false → r.rest ≡ some l
unchanged_without l t r gone = ground (arith, gone, r.unchanged)

module _ (a : SplitAxis) (f s : PaneLayout) (t : ℕ) (rf : Removes f t) (rs : Removes s t) where
  Removes-first : mem t (panes f) ≡ true → Removes (split_pane a f s) t
  unfolding without panes
  Removes-first here = elim (Option-cases rf.rest) [
    | inl e ↦ record {
      rest = some s;
      returns = ground (arith, rf.returns, mem-append t (panes f) (panes s));
      remaining = ground (arith, rf.remaining, erase-append t (panes f) (panes s));
      unchanged = ground (arith, mem-append t (panes f) (panes s));
    }
    | inr (k, e) ↦ record {
      rest = some (split_pane a k s);
      returns = ground (arith, rf.returns, mem-append t (panes f) (panes s));
      remaining = ground (arith, rf.remaining, erase-append t (panes f) (panes s));
      unchanged = ground (arith, mem-append t (panes f) (panes s));
    }
  ]

  Removes-second : mem t (panes f) ≡ false → mem t (panes s) ≡ true → Removes (split_pane a f s) t
  unfolding without panes
  Removes-second away here = elim (Option-cases rs.rest) [
    | inl e ↦ record {
      rest = some f;
      returns = ground (
        arith,
        rf.returns,
        unchanged_without f t rf away,
        rs.returns,
        mem-append t (panes f) (panes s),
      );
      remaining =
          ground (arith, rs.remaining, append-nil (panes f), erase-append t (panes f) (panes s));
      unchanged = ground (arith, mem-append t (panes f) (panes s));
    }
    | inr (k, e) ↦ record {
      rest = some (split_pane a f k);
      returns = ground (
        arith,
        rf.returns,
        unchanged_without f t rf away,
        rs.returns,
        mem-append t (panes f) (panes s),
      );
      remaining = ground (arith, rs.remaining, erase-append t (panes f) (panes s));
      unchanged = ground (arith, mem-append t (panes f) (panes s));
    }
  ]

  Removes-none : mem t (panes f) ≡ false → mem t (panes s) ≡ false → Removes (split_pane a f s) t
  unfolding without panes
  Removes-none away gone = record {
    rest = some (split_pane a f s);
    returns = ground (
      arith,
      rf.returns,
      unchanged_without f t rf away,
      rs.returns,
      unchanged_without s t rs gone,
      mem-append t (panes f) (panes s),
    );
    remaining = ground (
      arith,
      rf.remaining,
      unchanged_without f t rf away,
      rs.remaining,
      unchanged_without s t rs gone,
      erase-append t (panes f) (panes s),
    );
    unchanged = inr refl;
  }

Removes-pane : (id t : ℕ) → Removes (pane id) t
unfolding without panes
Removes-pane id t = elim (Bool-cases (id == t)) [
  | inl same ↦ record {
    rest = none;
    returns = ground arith;
    remaining = ground arith;
    unchanged = ground arith;
  }
  | inr other ↦ record {
    rest = some (pane id);
    returns = ground arith;
    remaining = ground arith;
    unchanged = ground arith;
  }
]

-- `without` returns for every layout and pane, so that neither `expect` panics: the flag tells
-- whether the pane was in the layout, the panes left are the others in their order, and a layout
-- without the pane comes back unchanged.
pub without-Removes : (l : PaneLayout) (t : ℕ) → Removes l t
without-Removes (pane id) t = Removes-pane id t
without-Removes (split_pane a f s) t = elim (Bool-cases (mem t (panes f))) [
  | inl here ↦ Removes-first a f s t (without-Removes f t) (without-Removes s t) here
  | inr away ↦ elim (Bool-cases (mem t (panes s))) [
    | inl here ↦ Removes-second a f s t (without-Removes f t) (without-Removes s t) away here
    | inr gone ↦ Removes-none a f s t (without-Removes f t) (without-Removes s t) away gone
  ]
]

-- If the panes of a layout are distinct and a removal leaves a layout, its panes are distinct and
-- the pane is gone.
pub without-distinct :
    (l k : PaneLayout) (t : ℕ) {found : Bool}
    → distinct (panes l) ≡ true
    → without l t ≡ some (some k, found)
    → (distinct (panes k) ≡ true) × (contains k t ≡ false)
without-distinct l k t d h = ground (
  arith,
  without-Removes l t,
  (without-Removes l t).returns,
  (without-Removes l t).remaining,
  contains-mem k t,
  distinct-erase t (panes l) d,
)

without_absent :
    (l : PaneLayout) (t : ℕ) → contains l t ≡ false → without l t ≡ some (some l, false)
without_absent l t gone =
    let away = sym (contains-mem l t) ∙ gone in
    ground
      (arith, (without-Removes l t).returns, unchanged_without l t (without-Removes l t) away, away)

-- For a pane that the layout holds and a fresh one that it does not, splitting off the fresh pane
-- and removing it again gives the very layout back.
pub without-split :
    (l : PaneLayout) (t n : ℕ) (axis : SplitAxis)
    → contains l t ≡ true
    → contains l n ≡ false
    → without (split l t n axis).0 n ≡ some (some l, true)
unfolding split without contains
without-split (pane id) t n axis here fresh = ground arith
without-split (split_pane a f s) t n axis here fresh = elim (Bool-cases (contains f t)) [
  | inl first ↦
      ground
        (arith, first, split_found f t n axis, contains-mem f t, without-split f t n axis first)
  | inr second ↦ ground (
    arith,
    second,
    split_found f t n axis,
    contains-mem f t,
    split_absent f t n axis,
    without_absent f n,
    without-split s t n axis,
  )
]
