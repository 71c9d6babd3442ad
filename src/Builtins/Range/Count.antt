-- ===== src/Builtins/Range/Count.antt =====
-- The numbers that a range iterator counts.
use minipy.Base.{
  ℕ, zero, suc, ◌+◌, ◌*◌, ◌-◌, ◌<◌, ◌≤◌, Bool, true, false, ltb, leb, if◌then◌else◌, ◌≡◌, refl,
  subst, arith, Bool-cases, inl, inr,
}
use minipy.Builtins.Range.{
  RangeIterator, origin, modulus, add64, new_range, range_current, is_past, move_to, next_range,
}

-- The numbers that minivm boxes inline: those of 49 bits.
abbrev pub IsBoxable : ℕ → Type 0
IsBoxable m = (origin ≤ m + 281474976710656) × (m < origin + 281474976710656)

module _ {B : Type 0} (null : B) (box : ℕ → B) (unbox : B → ℕ) where
  -- `n` calls of `Next`.
  unfoldable pub next_times : ℕ → RangeIterator B → RangeIterator B
  unfolding next_range
  next_times zero it = it
  next_times (suc n) it = next_times n (next_range null box unbox it).0

  abbrev pub unless : Bool → B → B
  unless past b = if past then null else b

  -- The iterator stands on the number `m` of a range that ends at `stop`, `past` tells whether that is behind the end.
  pub record Shows (last by m : ℕ) (past : Bool) (it : RangeIterator B) : Type 0 where
    pub stop : it.stop ≡ last
    pub step : it.step ≡ by
    pub done : it.done ≡ past
    pub shown : range_current null it ≡ unless past (box m)

  module _ (unbox-box : (m : ℕ) → IsBoxable m → unbox (box m) ≡ m) where
    stay_past :
        (last by m k : ℕ) (it : RangeIterator B)
        → Shows last by m true it
        → Shows last by k true (next_range null box unbox it).0
    unfolding next_range range_current
    stay_past last by m k it h =
        rw h.done (record { stop = h.stop; step = h.step; done = refl; shown = refl })

    move_to-Shows :
        (last by m : ℕ) (past : Bool) (it : RangeIterator B)
        → it.stop ≡ last
        → it.step ≡ by
        → it.done ≡ false
        → is_past it m ≡ past
        → Shows last by m past (move_to null box unbox it m).0
    unfolding move_to range_current
    move_to-Shows last by m true it h k l e =
        rw e (record { stop = h; step = k; done = refl; shown = refl })
    move_to-Shows last by m false it h k l e =
        rw e (record { stop = h; step = k; done = l; shown = rw l refl })

    next_range-on :
        (it : RangeIterator B)
        → it.done ≡ false
        → next_range null box unbox it
          ≡ move_to null box unbox it (add64 (unbox it.current) it.step)
    unfolding next_range
    next_range-on it h = rw h refl

    next_up :
        (stop d m : ℕ) (it : RangeIterator B)
        → 0 < d
        → stop + d ≤ modulus
        → (m < stop → IsBoxable m)
        → Shows stop (origin + d) m (leb stop m) it
        → Shows stop (origin + d) (m + d) (leb stop (m + d)) (next_range null box unbox it).0
    unfolding add64 range_current
    next_up stop d m it pos small fits h = elim (Bool-cases (leb stop m)) [
      | inl e ↦
          let later : leb stop (m + d) ≡ true = ground arith in
          rw later (stay_past stop (origin + d) m (m + d) it (rw e at h))
      | inr e ↦
          let on : it.done ≡ false = rw h.done e in
          let low : m < stop = ground arith in
          let now : it.current ≡ box m = rw (on, e) at h.shown in
          let next : add64 (unbox it.current) it.step ≡ m + d =
            rw (now, unbox-box m (fits low), h.step) (omega arith) in
          rw (next_range-on it on, next)
            (move_to-Shows stop (origin + d) (m + d) (leb stop (m + d)) it h.stop h.step on
              (rw (h.stop, h.step) (ground arith)))
    ]

    next_down :
        (stop d m : ℕ) (it : RangeIterator B)
        → 0 < d
        → d ≤ stop
        → d ≤ origin
        → (stop < m → IsBoxable m)
        → Shows stop (origin - d) m (leb m stop) it
        → Shows stop (origin - d) (m - d) (leb (m - d) stop) (next_range null box unbox it).0
    unfolding add64 range_current
    next_down stop d m it pos small low fits h = elim (Bool-cases (leb m stop)) [
      | inl e ↦
          let later : leb (m - d) stop ≡ true = ground arith in
          rw later (stay_past stop (origin - d) m (m - d) it (rw e at h))
      | inr e ↦
          let on : it.done ≡ false = rw h.done e in
          let high : stop < m = ground arith in
          let now : it.current ≡ box m = rw (on, e) at h.shown in
          let (_, top) = fits high in
          let next : add64 (unbox it.current) it.step ≡ m - d =
            rw (now, unbox-box m (fits high), h.step) (omega arith) in
          rw (next_range-on it on, next)
            (move_to-Shows stop (origin - d) (m - d) (leb (m - d) stop) it h.stop h.step on
              (rw (h.stop, h.step) (ground arith)))
    ]

    next_times-up :
        (stop d : ℕ) (n m : ℕ) (it : RangeIterator B)
        → 0 < d
        → stop + d ≤ modulus
        → origin ≤ m + 281474976710656
        → stop ≤ origin + 281474976710656
        → Shows stop (origin + d) m (leb stop m) it
        → Shows stop (origin + d) (m + n * d) (leb stop (m + n * d)) (next_times n it)
    unfolding next_times
    next_times-up stop d zero m it pos small low high h =
        subst (λ k. Shows stop (origin + d) k (leb stop k) it) (omega arith) h
    next_times-up stop d (suc n) m it pos small low high h =
        let after = next_up stop d m it pos small (λ inside. (low, omega arith)) h in
        let last =
          next_times-up stop d n (m + d) (next_range null box unbox it).0 pos small (omega arith)
            high after in
        subst (λ k. Shows stop (origin + d) k (leb stop k) (next_times (suc n) it)) (omega arith)
          last

    next_times-down :
        (stop d : ℕ) (n m : ℕ) (it : RangeIterator B)
        → 0 < d
        → d ≤ stop
        → d ≤ origin
        → m < origin + 281474976710656
        → origin ≤ stop + 281474976710657
        → Shows stop (origin - d) m (leb m stop) it
        → Shows stop (origin - d) (m - n * d) (leb (m - n * d) stop) (next_times n it)
    unfolding next_times
    next_times-down stop d zero m it pos small fits high low h =
        subst (λ k. Shows stop (origin - d) k (leb k stop) it) (omega arith) h
    next_times-down stop d (suc n) m it pos small fits high low h =
        let after = next_down stop d m it pos small fits (λ inside. (omega arith, high)) h in
        let last =
          next_times-down stop d n (m - d) (next_range null box unbox it).0 pos small fits
            (omega arith) low after in
        subst (λ k. Shows stop (origin - d) k (leb k stop) (next_times (suc n) it)) (omega arith)
          last

    new_range-Shows :
        (zero_box : B) (start last by : ℕ) (past : Bool)
        → (if ltb origin by then leb last start else leb start last) ≡ past
        → Shows last by start past (new_range zero_box box start last by)
    unfolding new_range range_current
    new_range-Shows zero_box start last by true h =
        rw h (record { stop = refl; step = refl; done = refl; shown = refl })
    new_range-Shows zero_box start last by false h =
        rw h (record { stop = refl; step = refl; done = refl; shown = refl })

    -- Where unboxing gives a boxed number of 49 bits back: for a positive step `d` that cannot take a number below the stop over the end of `int64`, a
    -- start of at least -2^48 and a stop of at most 2^48, after any number `n` of calls of `Next` the
    -- iterator is done exactly if start + n * d has reached the stop, and shows null then and the box
    -- of start + n * d before.
    pub range_up :
        (zero_box : B) (start stop d n : ℕ)
        → 0 < d
        → stop + d ≤ modulus
        → origin ≤ start + 281474976710656
        → stop ≤ origin + 281474976710656
        → Shows stop
            (origin + d)
            (start + n * d)
            (leb stop (start + n * d))
            (next_times n (new_range zero_box box start stop (origin + d)))
    range_up zero_box start stop d n pos small low high =
        next_times-up stop d n start (new_range zero_box box start stop (origin + d)) pos small low
          high (new_range-Shows zero_box start stop (origin + d) (leb stop start) (ground arith))

    -- Where unboxing gives a boxed number of 49 bits back: for a negative step -`d` that cannot take a number above the stop below the least
    -- `int64`, a start below 2^48 and a stop of at least -2^48 - 1: after any number `n` of
    -- calls of `Next` the iterator is done exactly if start - n * d has come down to the stop, and
    -- shows null then and the box of start - n * d before.
    pub range_down :
        (zero_box : B) (start stop d n : ℕ)
        → 0 < d
        → d ≤ stop
        → d ≤ origin
        → start < origin + 281474976710656
        → origin ≤ stop + 281474976710657
        → Shows stop
            (origin - d)
            (start - n * d)
            (leb (start - n * d) stop)
            (next_times n (new_range zero_box box start stop (origin - d)))
    range_down zero_box start stop d n pos small fits high low =
        next_times-down stop d n start (new_range zero_box box start stop (origin - d)) pos small
          fits high low
          (new_range-Shows zero_box start stop (origin - d) (leb start stop) (ground arith))
