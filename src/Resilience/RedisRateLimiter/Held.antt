-- ===== src/Resilience/RedisRateLimiter/Held.antt =====
-- internal/resilience/redis_ratelimiter.go: what the sorted set holds of the admitted calls.
use mathlib.Core.Path.{ap₂}
use webhook_service.Repository.Keys.{All-select}
use webhook_service.Prelude.{
  ◌==◌, ==_iff, and-true, ℕ, suc, ◌+◌, ◌≤◌, ◌<◌, ◌≡◌, refl, sym, ap, ◌∙◌, Bool, true, false, not,
  List, [], ◌∷◌, arith, All, length, select, exists, count_where, count-select, count-le,
  count-none, select-all, All-implied, leb, Bool-cases, inl, inr,
}
use webhook_service.Prelude.Int.{pos, ◌-ℤ◌}
use webhook_service.Resilience.RedisRateLimiter.{Member, Entry, same_member, put, in_range}
use webhook_service.Resilience.RedisRateLimiter.Calls.{Call, fresh, in_window}

pub fresh_later : (window t u a : ℕ) → u ≤ t → fresh window t a ≡ true → fresh window u a ≡ true
fresh_later window t u a h k = ground (arith, h, k)

-- The range that the script removes is what the window has left.
pub kept-fresh :
    (window now : ℕ) (e : Entry)
    → not (in_range (pos 0) (pos now -ℤ pos window) e) ≡ fresh window now e.1
unfolding ◌-ℤ◌
kept-fresh window now e = ground arith

same_member_eq : (m n : Member) → same_member m n ≡ true → m ≡ n
same_member_eq (a, b) (c, d) h =
    let (x, y) = and-true (a == c) (b == d) h in
    ap₂ (λ i j. (i, j)) ((==_iff a c).0 x) ((==_iff b d).0 y)

pub same_member_refl : (m : Member) → same_member m m ≡ true
same_member_refl (a, b) = ground arith

leb_le : (a b : ℕ) → leb a b ≡ true → a ≤ b
leb_le a b h = ground (arith, h)

-- The member of the entry is that of a call.
abbrev pub used : List Call → Entry → Bool
used cs e = exists (λ (d : Call). same_member d.member e.0) cs

-- What the set knows of the calls that were admitted: as many of its entries are fresh as of these,
-- at every instant from the last call on.
pub record Held (window limit last : ℕ) (cs : List Call) (es : List Entry) (admitted : List ℕ)
    : Type 0 where
  pub counts :
      (t : ℕ)
      → last ≤ t
      → count_where (fresh window t) admitted ≡ count_where (λ (e : Entry). fresh window t e.1) es
  pub known : All (λ e. used cs e ≡ true) es
  pub bounded : (t : ℕ) → count_where (in_window window t) admitted ≤ limit
  pub earlier : All (λ a. a ≤ last) admitted

-- What is left of the entries at the instant of a call.
abbrev pub kept : ℕ → ℕ → List Entry → List Entry
kept window now es = select (λ (e : Entry). fresh window now e.1) es

module _ (window limit now : ℕ) (c : Call) (cs : List Call) (es : List Entry)
    (admitted : List ℕ) where
  counts-kept :
      (t : ℕ)
      → Held window limit now cs es admitted
      → now ≤ t
      → count_where (fresh window t) admitted
        ≡ count_where (λ (e : Entry). fresh window t e.1) (kept window now es)
  counts-kept t h late =
      h.counts t late
      ∙ sym (
          count-select (λ (e : Entry). fresh window t e.1) _ es
            (λ e. fresh_later window t now e.1 late))

  length-kept :
      Held window limit now cs es admitted
      → length (kept window now es) ≡ count_where (fresh window now) admitted
  length-kept h = sym (h.counts now (omega arith))

  used-kept :
      Held window limit now cs es admitted → All (λ e. used (c ∷ cs) e ≡ true) (kept window now es)
  used-kept h =
      All-implied (kept window now es) (λ e k. used_more e k.0)
        (All-select _ (λ (e : Entry). fresh window now e.1) es h.known)
    where
      used_more : (e : Entry) → used cs e ≡ true → used (c ∷ cs) e ≡ true
      used_more e k = ground (arith, k)

  -- A call that is refused leaves what is fresh.
  pub refused-Held :
      Held window limit now cs es admitted
      → Held window limit now (c ∷ cs) (kept window now es) admitted
  refused-Held h = record {
    counts = λ t late. counts-kept t h late;
    known = used-kept h;
    bounded = h.bounded;
    earlier = h.earlier;
  }

  -- The member of the call is new to the set.
  new_member :
      exists (λ (d : Call). same_member d.member c.member) cs ≡ false
      → Held window limit now cs es admitted
      → All (λ e. not (same_member e.0 c.member) ≡ true) (kept window now es)
  new_member unused h =
      All-implied (kept window now es) (λ e k. differs e k.0)
        (All-select _ (λ (e : Entry). fresh window now e.1) es h.known)
    where
      differs : (e : Entry) → used cs e ≡ true → not (same_member e.0 c.member) ≡ true
      differs e k = elim (Bool-cases (same_member e.0 c.member)) [
        | inl same ↦ absurd (
            cc (
              k,
              unused,
              ap (λ m. exists (λ (d : Call). same_member d.member m) cs)
                  (same_member_eq e.0 c.member same),
            ))
        | inr other ↦ rw other refl
      ]

  admitted-bounded :
      Held window limit now cs es admitted
      → length (kept window now es) < limit
      → (t : ℕ) → count_where (in_window window t) (now ∷ admitted) ≤ limit
  admitted-bounded h room t = elim (Bool-cases (leb now t)) [
    | inl inside ↦
        let fewer =
          count-le (in_window window t) (fresh window now) admitted
            (λ a k. fresh_later window t now a (leb_le now t inside) (and-true (leb a t) _ k).1) in
        let left = length-kept h in
        elim (Bool-cases (fresh window t now)) [
          | inl counted ↦ rw (inside, counted) (omega (arith, fewer, left, room))
          | inr out ↦ rw (inside, out) (h.bounded t)
        ]
    | inr before ↦ rw before (h.bounded t)
  ]

  pub admitted-Held :
      exists (λ (d : Call). same_member d.member c.member) cs ≡ false
      → length (kept window now es) < limit
      → Held window limit now cs es admitted
      → Held window limit now (c ∷ cs) (put c.member now (kept window now es)) (now ∷ admitted)
  admitted-Held unused room h =
      rw
        (select-all (λ (e : Entry). not (same_member e.0 c.member)) (kept window now es)
          (new_member unused h))
        (record {
          counts = λ t late. elim (Bool-cases (fresh window t now)) [
            | inl counted ↦ rw counted (ap suc (counts-kept t h late))
            | inr out ↦ rw out (counts-kept t h late)
          ];
          known = (rw (same_member_refl c.member) refl, used-kept h);
          bounded = admitted-bounded h room;
          earlier = (omega arith, h.earlier);
        })

-- Time passes, or the key is dropped, before a call.
pub later-Held :
    (window limit last now : ℕ) (cs : List Call) (es : List Entry) (admitted : List ℕ)
    → last ≤ now
    → Held window limit last cs es admitted
    → Held window limit now cs es admitted
later-Held window limit last now cs es admitted le h = record {
  counts = λ t late. h.counts t (omega (arith, le, late));
  known = h.known;
  bounded = h.bounded;
  earlier = All-implied admitted (λ a k. omega (arith, k, le)) h.earlier;
}

pub expired-Held :
    (window limit last now : ℕ) (cs : List Call) (es : List Entry) (admitted : List ℕ)
    → last + window ≤ now
    → Held window limit last cs es admitted
    → Held window limit now cs [] admitted
expired-Held window limit last now cs es admitted le h = record {
  counts = λ t late.
      count-none (fresh window t) admitted
        (All-implied admitted (λ a k. stale a t k le late) h.earlier);
  known = tt;
  bounded = h.bounded;
  earlier = All-implied admitted (λ a k. omega (arith, k, le)) h.earlier;
}
  where
    stale : (a t : ℕ) → a ≤ last → last + window ≤ now → now ≤ t → fresh window t a ≡ false
    stale a t k l m = ground (arith, k, l, m)
