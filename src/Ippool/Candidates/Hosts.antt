-- ===== src/Ippool/Candidates/Hosts.antt =====
-- The hosts that the four loops put in order.
use mathlib.Core.List.{reverse, foldl, reverse-cons}
use tmap.Base.{
  ℕ, zero, suc, ◌+◌, ◌-◌, ◌^◌, ◌<◌, ◌≡◌, refl, sym, ap, subst, ◌∙◌, Bool, true, false, ◌&&◌, ◌||◌,
  List, [], ◌∷◌, ◌++◌, ltb, leb, ◌==◌, arith,
}
use tmap.Ippool.Candidates.{Sweep, u32, mem_host, add_host, range_from, preferred, visits, ordered}

-- Neither the network's address nor its broadcast address, nor outside.
abbrev pub inside : ℕ → ℕ → ℕ → Bool
inside network broadcast h = ltb network h && ltb h broadcast

-- No host stands twice.
abbrev pub IsDistinct : List ℕ → Type 0
IsDistinct [] = Unit
IsDistinct (x ∷ xs) = (mem_host x xs ≡ false) × IsDistinct xs

pub mem_host-append :
    (h : ℕ) (xs ys : List ℕ) → mem_host h (xs ++ ys) ≡ (mem_host h xs || mem_host h ys)
unfolding mem_host
mem_host-append h [] ys = refl
mem_host-append h (x ∷ xs) ys = ground (arith, mem_host-append h xs ys)

or_last :
    (h x : ℕ) (ys xs : List ℕ)
    → mem_host h ys ≡ mem_host h xs
    → (mem_host h ys || mem_host h (x ∷ [])) ≡ mem_host h (x ∷ xs)
unfolding mem_host
or_last h x ys xs e = ground arith

mem_host-reverse : (h : ℕ) (xs : List ℕ) → mem_host h (reverse xs) ≡ mem_host h xs
mem_host-reverse h [] = refl
mem_host-reverse h (x ∷ xs) =
    ap (mem_host h) (reverse-cons x xs)
    ∙ (mem_host-append h (reverse xs) (x ∷ [])
        ∙ or_last h x (reverse xs) xs (mem_host-reverse h xs))

-- Between two calls of `add` the set and the slice agree on the hosts inside.
record Tidy (network broadcast : ℕ) (s : Sweep) : Type 0 where
  agree : (h : ℕ) → inside network broadcast h ≡ true → mem_host h s.seen ≡ mem_host h s.rev
  distinct : IsDistinct s.rev

add_host-mem :
    (network broadcast x : ℕ) (s : Sweep) (h : ℕ)
    → Tidy network broadcast s
    → mem_host h (add_host network broadcast s x).rev
      ≡ (mem_host h s.rev || (x == h && inside network broadcast h))
unfolding add_host mem_host
add_host-mem network broadcast x s h t = ground (arith, t.agree x)

add_host-Tidy :
    (network broadcast x : ℕ) (s : Sweep)
    → Tidy network broadcast s
    → Tidy network broadcast (add_host network broadcast s x)
unfolding add_host mem_host
add_host-Tidy network broadcast x s t = record {
  agree = λ h i. ground (arith, t.agree h i);
  distinct = ground (arith, t.agree x);
}

module _ (network broadcast : ℕ) where
  -- All calls together: the hosts inside that are visited, each once.
  fold-mem :
      (xs : List ℕ) (s : Sweep) (h : ℕ)
      → Tidy network broadcast s
      → mem_host h (foldl (add_host network broadcast) s xs).rev
        ≡ (mem_host h s.rev || (mem_host h xs && inside network broadcast h))
  unfolding mem_host
  fold-mem [] s h t = ground arith
  fold-mem (x ∷ xs) s h t =
      let next = add_host network broadcast s x in
      ground (
        arith,
        add_host-mem network broadcast x s h t,
        fold-mem xs next h (add_host-Tidy network broadcast x s t),
      )

  fold-Tidy :
      (xs : List ℕ) (s : Sweep)
      → Tidy network broadcast s
      → Tidy network broadcast (foldl (add_host network broadcast) s xs)
  fold-Tidy [] s t = t
  fold-Tidy (x ∷ xs) s t =
      fold-Tidy xs (add_host network broadcast s x) (add_host-Tidy network broadcast x s t)

  start-Tidy : Tidy network broadcast (record { seen = network ∷ broadcast ∷ []; rev = [] })
  unfolding mem_host
  start-Tidy = record { agree = λ h i. ground arith; distinct = tt }

mem_host-range_from : (lo n h : ℕ) → mem_host h (range_from lo n) ≡ (leb lo h && ltb h (lo + n))
unfolding mem_host range_from
mem_host-range_from lo zero h = ground arith
mem_host-range_from lo (suc n) h = ground (arith, mem_host-range_from (lo + 1) n h)

-- The last loop alone visits every host inside.
visits_all :
    (network broadcast seed h : ℕ)
    → broadcast < 2 ^ 32
    → inside network broadcast h ≡ true
    → mem_host h (visits network broadcast seed) ≡ true
unfolding visits
visits_all network broadcast seed h b i =
    let rest = range_from (u32 (network + 1)) (broadcast - u32 (network + 1)) in
    ground (
      arith,
      mem_host-append h (preferred network seed) rest,
      mem_host-range_from (u32 (network + 1)) (broadcast - u32 (network + 1)) h,
    )

and_absorb : (a b : Bool) → (b ≡ true → a ≡ true) → (a && b) ≡ b
and_absorb a b h = ground arith

-- Where the broadcast address has 32 bits, what is put in order are the hosts between the network's
-- address and its broadcast address, all of them and nothing else.
pub mem_host-ordered :
    (network broadcast seed h : ℕ)
    → broadcast < 2 ^ 32
    → mem_host h (ordered network broadcast seed) ≡ inside network broadcast h
unfolding ordered
mem_host-ordered network broadcast seed h b =
    mem_host-reverse h _
    ∙ (fold-mem network broadcast (visits network broadcast seed) _ h (start-Tidy network broadcast)
        ∙ and_absorb _ _ (visits_all network broadcast seed h b))

IsDistinct-append_one :
    (xs : List ℕ) (x : ℕ) → mem_host x xs ≡ false → IsDistinct xs → IsDistinct (xs ++ x ∷ [])
unfolding mem_host
IsDistinct-append_one [] x h d = (refl, tt)
IsDistinct-append_one (y ∷ ys) x h d =
    ground (arith, mem_host-append y ys (x ∷ []), IsDistinct-append_one ys x)

IsDistinct-reverse : (xs : List ℕ) → IsDistinct xs → IsDistinct (reverse xs)
IsDistinct-reverse [] d = tt
IsDistinct-reverse (x ∷ xs) d =
    subst IsDistinct (sym (reverse-cons x xs)) (
      IsDistinct-append_one (reverse xs) x (mem_host-reverse x xs ∙ d.0)
        (IsDistinct-reverse xs d.1))

-- No host is put in order twice.
pub ordered-IsDistinct : (network broadcast seed : ℕ) → IsDistinct (ordered network broadcast seed)
unfolding ordered
ordered-IsDistinct network broadcast seed =
    IsDistinct-reverse _
      (fold-Tidy network broadcast (visits network broadcast seed) _
        (start-Tidy network broadcast)).distinct
