-- ===== src/Diagnosis/Concurrent/Owned.antt =====
-- Who holds which database.
use optimizer_canary_service.Base.{
  ℕ, zero, suc, ◌+◌, ◌≤◌, ◌<◌, ◌≡◌, refl, ap, not, Option, none, some, List, [], ◌∷◌, arith, ◌==◌,
  if◌then◌else◌, keep,
}
use optimizer_canary_service.Base.Family.{sum_below-update, weight-le-sum_below, sum_below}
use optimizer_canary_service.Diagnosis.Connection.{
  close_old, open_handle, ConnectionManager, close_handle,
}
use optimizer_canary_service.Diagnosis.Concurrent.System.{Move, Reach, Step, Pc, System}

abbrev pub same : ℕ → ℕ → ℕ
same x h = if x == h then 1 else 0

abbrev pub of_option : ℕ → Option ℕ → ℕ
of_option x none = 0
of_option x (some h) = same x h

-- How often a client holds a handle: 0 or 1.
abbrev pub held : ℕ → Pc → ℕ
held x Pc.idle = 0
held x (Pc.opened dsn h) = same x h
held x (Pc.verified dsn h) = same x h
held x (Pc.refused h) = same x h
held x (Pc.exchanged old) = of_option x old

-- How often a handle is open.
abbrev pub count : ℕ → List ℕ → ℕ
count x [] = 0
count x (h ∷ live) = same x h + count x live

count-keep :
    (x h : ℕ) (live : List ℕ)
    → count x (keep (λ y. not (y == h)) live) ≡ (if x == h then 0 else count x live)
count-keep x h [] = ground arith
count-keep x h (y ∷ live) = ground (arith, count-keep x h live)

-- Every open handle has one owner, the manager or a call, and no other handle has one.
pub record Owns (n : ℕ) (s : System) (x : ℕ) : Type 0 where
  pub owned : count x s.manager.live ≡ of_option x s.manager.db + sum_below (held x) n s.pc
  pub once : count x s.manager.live ≤ 1
  pub fresh : s.manager.made ≤ x → count x s.manager.live ≡ 0

-- What a step does to one handle.
record Passes (x : ℕ) (m : ConnectionManager) (p : Pc) (m' : ConnectionManager) (p' : Pc)
    : Type 0 where
  passed :
      count x m'.live + held x p + of_option x m.db ≡ count x m.live + held x p' + of_option x m'.db
  once : count x m'.live ≤ 1
  fresh : m'.made ≤ x → count x m'.live ≡ 0

abbrev Sound : ℕ → ConnectionManager → Pc → Type 0
Sound x m p =
    (of_option x m.db + held x p ≤ count x m.live)
    × (count x m.live ≤ 1)
    × (m.made ≤ x → count x m.live ≡ 0)

close_handle-Passes :
    (x h : ℕ) (m : ConnectionManager)
    → Sound x m (Pc.refused h)
    → Passes x m (Pc.refused h) (close_handle h m) Pc.idle
unfolding close_handle
close_handle-Passes x h m (least, once, fresh) = record {
  passed = ground (arith, count-keep x h m.live, least, once);
  once = ground (arith, count-keep x h m.live, once);
  fresh = λ le. ground (arith, count-keep x h m.live, fresh le);
}

close_old-Passes :
    (x : ℕ) (old : Option ℕ) (m : ConnectionManager)
    → Sound x m (Pc.exchanged old)
    → Passes x m (Pc.exchanged old) (close_old old m) Pc.idle
unfolding close_old
close_old-Passes x none m (least, once, fresh) = record {
  passed = refl;
  once = once;
  fresh = fresh;
}
close_old-Passes x (some h) m sound =
    let closed = close_handle-Passes x h m sound in
    record { passed = closed.passed; once = closed.once; fresh = closed.fresh }

Move-Passes :
    (x : ℕ) {m m' : ConnectionManager} {p p' : Pc}
    → Move m p m' p'
    → Sound x m p
    → Passes x m p m' p'
unfolding open_handle
Move-Passes x Move.give_up (least, once, fresh) = record {
  passed = refl;
  once = once;
  fresh = fresh;
}
Move-Passes x {m} (Move.open_db dsn some_dsn) (least, once, fresh) = record {
  passed = omega arith;
  once = ground (arith, fresh, once);
  fresh = λ le. ground (arith, fresh (omega (arith, le)), le);
}
Move-Passes x Move.ping (least, once, fresh) = record { passed = refl; once = once; fresh = fresh }
Move-Passes x Move.ping_failed (least, once, fresh) = record {
  passed = refl;
  once = once;
  fresh = fresh;
}
Move-Passes x {m} (Move.close_refused {h}) sound = close_handle-Passes x h m sound
Move-Passes x Move.install (least, once, fresh) = record {
  passed = omega arith;
  once = once;
  fresh = fresh;
}
Move-Passes x Move.clear (least, once, fresh) = record {
  passed = omega arith;
  once = once;
  fresh = fresh;
}
Move-Passes x {m} (Move.close_replaced {old}) sound = close_old-Passes x old m sound

Step-Owns : {n : ℕ} {s t : System} (x : ℕ) → Step n s t → Owns n s x → Owns n t x
Step-Owns {n} {s} x (Step.work i {m} {p} less move) h =
    let part = weight-le-sum_below (held x) n s.pc i less in
    let sound : Sound x s.manager (s.pc i) = (omega (arith, h.owned, part), h.once, h.fresh) in
    let moved = Move-Passes x move sound in
    record {
      owned = omega (arith, h.owned, moved.passed, sum_below-update (held x) n s.pc i p less, part);
      once = moved.once;
      fresh = moved.fresh;
    }

none_held : (x n : ℕ) → sum_below (held x) n (λ i. Pc.idle) ≡ 0
unfolding sum_below
none_held x zero = refl
none_held x (suc n) = omega (arith, none_held x n)

Reach-Owns : {n : ℕ} {s : System} → Reach n s → (x : ℕ) → Owns n s x
Reach-Owns {n} Reach.start x = record {
  owned = omega (arith, none_held x n);
  once = omega arith;
  fresh = λ h. refl;
}
Reach-Owns (Reach.later r step) x = Step-Owns x step (Reach-Owns r x)

idle_held :
    (x n : ℕ) (pc : ℕ → Pc) → ((i : ℕ) → i < n → pc i ≡ Pc.idle) → sum_below (held x) n pc ≡ 0
unfolding sum_below
idle_held x zero pc h = refl
idle_held x (suc n) pc h =
    let last : held x (pc n) ≡ 0 = ap (held x) (h n (omega arith)) in
    omega (arith, last, idle_held x n pc (λ i less. h i (omega (arith, less))))

-- Whatever the interleaving of the calls of `n` clients, and whatever the driver answers: a handle is
-- open exactly as often as the manager and the calls in progress hold it, once at most, and none is
-- open that was not made yet; so the active connection is never closed, and when every call has
-- returned it alone is open.
pub Reach-Owned :
    {n : ℕ} {s : System}
    → Reach n s
    → (x : ℕ)
    → Owns n s x
      × (of_option x s.manager.db ≤ count x s.manager.live)
      × (((i : ℕ) → i < n → s.pc i ≡ Pc.idle) → count x s.manager.live ≡ of_option x s.manager.db)
Reach-Owned {n} {s} r x =
    let owns = Reach-Owns r x in
    (owns, omega (arith, owns.owned), λ idle. omega (arith, owns.owned, idle_held x n s.pc idle))
