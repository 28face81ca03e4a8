-- ===== src/Pmr/Serving/Moves.antt =====
-- What the calls of one client of frontend/pmr do to the desks.
use pmraccess.Base.{
  ℕ, ◌+◌, ◌<◌, ◌≤◌, ◌≡◌, refl, sym, ◌∙◌, ap, true, false, Bool, none, some, List, [], ◌∷◌, map,
  arith, inl, inr, ◌⊎◌, Option-cases, Bool-cases, if◌then◌else◌, bytes_eq, bytes_eq→eq, Bytes, ◌==◌,
  fun_ext,
}
use pmraccess.Store.{Meta, HashMapOps}
use pmraccess.Uring.{UringOps, UringLaws, IOuring}
use pmraccess.Bitset.{AtomicBitset}
use pmraccess.Bitset.Laws.{test, IsValid}
use pmraccess.Bitset.Alloc.{Took}
use pmraccess.Pmr.State.{Server, chunk_count}
use pmraccess.Pmr.Client.{Session}
use pmraccess.Pmr.Freeing.{waits, CanDrain}
use pmraccess.Pmr.Pending.{Entry, index_meta, pending}
use pmraccess.Pmr.Invariant.{Inv}
use pmraccess.Pmr.Serving.{Desk, Hall, session, set, desk_of, is_batched}
use pmraccess.Pmr.Serving.Places.{Well}
use pmraccess.Pmr.Serving.Shifts.{Shift}

pub set_twice {ℓ} : {A : Type ℓ} (i : ℕ) (a b : A) (f : ℕ → A) → set i a (set i b f) ≡ set i a f
unfolding set
set_twice i a b f = fun_ext (λ k. ground arith)

-- What holds of the one value holds of the other.
pub of_some {ℓ κ} : {A : Type ℓ} (P : A → Type κ) (a b : A) → some a ≡ some b → P a → P b
of_some {A = A} P a b e p = rw (same a b e) at p
  where
    same : (a b : A) → some a ≡ some b → a ≡ b
    same a b e = cc

-- A key that no record of the batch has.
pub is_batched-pending :
    (es : List Entry) (key j : Bytes) (e : Entry)
    → is_batched key (map (λ d. d.key) es) ≡ false
    → pending es j ≡ some e
    → bytes_eq key j ≡ false
unfolding is_batched pending
is_batched-pending es key j e out p = elim (Bool-cases (bytes_eq key j)) [
  | inl same ↦
      absurd
        (none_some (sym (none_pending es key out) ∙ ap (pending es) (bytes_eq→eq key j same) ∙ p))
  | inr differs ↦ differs
]
  where
    none_some : none ≡ some e → ⊥
    none_some q = cc

    none_pending :
        (ds : List Entry) (k : Bytes)
        → is_batched k (map (λ d. d.key) ds) ≡ false
        → pending ds k ≡ none
    none_pending [] k o = refl
    none_pending (d ∷ ds) k o = ground (arith, none_pending ds k)

pub Took-grows :
    {b b' : AtomicBitset} {slot : ℕ} (n : ℕ) → Took b 0 slot b' → test b n ≡ true → test b' n ≡ true
Took-grows n t e = t.bits n ∙ ground arith

module _ {K S T : Type 0} (u : UringOps K) {entries : ℕ} (laws : UringLaws u entries) where
  -- More bits are set, and what waits is the same, or one chunk more that is in use.
  pub CanDrain-same :
      (r : IOuring K) (s s' : Server S T)
      → CanDrain u laws r s
      → IsValid s'.bitmap
      → s'.bitmap.size ≡ chunk_count
      → ((n : ℕ) → test s.bitmap n ≡ true → test s'.bitmap n ≡ true)
      → s'.queue ≡ s.queue
      → CanDrain u laws r s'
  CanDrain-same r s s' c v size grows same = record {
    sound = c.sound;
    deep = c.deep;
    valid = v;
    sized = size;
    once = λ n.
        rw same
          (more (waits u laws n r s) (test s.bitmap n) (test s'.bitmap n) (c.once n) (grows n));
    inside = λ n. rw same (c.inside n);
  }
    where
      more :
          (w : ℕ) (was is : Bool)
          → w ≤ (if was then 1 else 0)
          → (was ≡ true → is ≡ true)
          → w ≤ (if is then 1 else 0)
      more w true is le k = rw (k refl) le
      more w false is le k = omega arith

  pub CanDrain-more :
      (r : IOuring K) (s s' : Server S T) (slot : ℕ)
      → CanDrain u laws r s
      → IsValid s'.bitmap
      → s'.bitmap.size ≡ chunk_count
      → ((n : ℕ) → test s.bitmap n ≡ true → test s'.bitmap n ≡ true)
      → slot < chunk_count
      → test s.bitmap slot ≡ true
      → waits u laws slot r s ≡ 0
      → ((n : ℕ) → waits u laws n r s' ≡ waits u laws n r s + (if slot == n then 1 else 0))
      → CanDrain u laws r s'
  CanDrain-more r s s' slot c v size grows lt used none_waits e = record {
    sound = c.sound;
    deep = c.deep;
    valid = v;
    sized = size;
    once = λ n.
        more n (waits u laws n r s) (waits u laws n r s') (slot == n) (test s.bitmap n)
          (test s'.bitmap n) (c.once n) (grows n) (e n)
          (λ q. let same : slot ≡ n = ground arith in (rw same at used, rw same at none_waits));
    inside = λ n some_wait. elim (Bool-cases (slot == n)) [
      | inl q ↦ ground arith
      | inr q ↦ c.inside n (ground (arith, e n))
    ];
  }
    where
      more :
          (n w w' : ℕ) (mine was is : Bool)
          → w ≤ (if was then 1 else 0)
          → (was ≡ true → is ≡ true)
          → w' ≡ w + (if mine then 1 else 0)
          → (mine ≡ true → (was ≡ true) × (w ≡ 0))
          → w' ≤ (if is then 1 else 0)
      more n w w' true was is le k e m =
          let (set_bit, none_yet) = m refl in rw (k set_bit) (omega (arith, none_yet, e))
      more n w w' false true is le k e m = rw (k refl) (omega (arith, e))
      more n w w' false false is le k e m = omega (arith, e)

module _ {K S T : Type 0} (u : UringOps K) {entries : ℕ} (laws : UringLaws u entries)
    (h : HashMapOps Meta T) where
  -- What the index has is pending at the changed desk, or was there and is not the old desk's.
  pub found_own :
      (x : Hall K S T) (es : ℕ → List Entry) (i : ℕ) (y : Session S T) (es' : List Entry)
      (slot' : ℕ) (j : Bytes) (m : Meta)
      → Inv h y es' slot'
      → (pending es' j ≡ none
          → ((d : Desk) → x.desks i ≡ some d → pending (es i) j ≡ none)
            × (h.find j x.server.map ≡ some m))
      → h.find j y.server.map ≡ some m
      → ((d : Desk) × (e : Entry) × (some (desk_of y) ≡ some d)
          × (pending es' j ≡ some e)
          × (m ≡ index_meta d.clerk.chunk_offset e))
        ⊎ (((d : Desk) → x.desks i ≡ some d → pending (es i) j ≡ none)
            × (h.find j x.server.map ≡ some m))
  found_own x es i y es' slot' j m inv rest q = elim (Option-cases (pending es' j)) [
    | inl p ↦ inr (rest p)
    | inr (e, p) ↦ inl (desk_of y, e, refl, p, same _ _ (sym q ∙ inv.index j e p))
  ]
    where
      same : (a b : Meta) → some a ≡ some b → a ≡ b
      same a b e = cc

  -- A call that leaves the index, the bits, the queue and the region.
  pub quiet-Shift :
      (x : Hall K S T) (es : ℕ → List Entry) (slot : ℕ → ℕ) (i : ℕ) (d : Desk) (y : Session S T)
      (store : S)
      → Well u laws h x es slot
      → x.desks i ≡ some d
      → Inv h y (es i) (slot i)
      → y.server ≡ record (x.server) { db = store }
      → Shift u laws h x es slot i (some (desk_of y)) (es i) (slot i) y.server
  quiet-Shift x es slot i d y store w here inv left = record {
    own = λ d' p. own_desk d' p;
    valid = inv.bits;
    sized = inv.bits_size;
    grows = λ n e. ap (λ s. test s.bitmap n) left ∙ e;
    unlike = λ d' k d'' p ne there same. ne (w.distinct k i d'' d there here same);
    kept = λ k d' j e ne there p. ap (λ s. h.find j s.map) left;
    found = λ j m q.
        found_own x es i y (es i) (slot i) j m inv
          (λ p. (λ d' here'. p, sym (ap (λ s. h.find j s.map) left) ∙ q)) q;
    outside = λ k d' n ne there p q. ap (λ s. s.region n) left;
    drain =
        CanDrain-same u laws x.ring x.server y.server w.drain inv.bits inv.bits_size
          (λ n e. ap (λ s. test s.bitmap n) left ∙ e) (ap (λ s. s.queue) left);
    own_unqueued = λ d' p. rw left (w.unqueued i d here);
    unqueued = λ k d' ne there. rw left refl;
  }
    where
      own_desk :
          (d' : Desk) → some (desk_of y) ≡ some d' → Inv h (session d' y.server) (es i) (slot i)
      own_desk d' p = of_some (λ o. Inv h (session o y.server) (es i) (slot i)) (desk_of y) d' p inv
