-- ===== src/Rdma/Release.antt =====
-- `~RDMAContext` of rdmautil/rdmautil.h: what an open context holds, and what its destructor gives back.
use pmraccess.Base.{ℕ, ◌≡◌, refl, Bool, true, false, List, [], ◌∷◌, ◌++◌, ◌||◌, ◌==◌, if◌then◌else◌}

-- What a context may hold of the verbs library and the process.
pub data Resource : Type 0 where
  queue_pair out_queue in_queue domain send_region write_region mapping send_buffer : Resource

abbrev code : Resource → ℕ
code queue_pair = 0
code out_queue = 1
code in_queue = 2
code domain = 3
code send_region = 4
code write_region = 5
code mapping = 6
code send_buffer = 7

unfoldable pub holds : List Resource → Resource → Bool
holds [] r = false
holds (x ∷ xs) r = code x == code r || holds xs r

unfoldable pub without : Resource → List Resource → List Resource
without r [] = []
without r (x ∷ xs) = if code x == code r then without r xs else x ∷ without r xs

-- What the manual pages name as keeping a resource in use: a protection domain cannot be
-- deallocated under a memory region or a queue pair, nor a completion queue destroyed under a
-- queue pair.
abbrev pub is_used : Resource → List Resource → Bool
is_used domain held = holds held send_region || holds held write_region || holds held queue_pair
is_used out_queue held = holds held queue_pair
is_used in_queue held = holds held queue_pair
is_used _ held = false

-- Whether a call that releases a resource succeeds, beside those that are held.
pub record Verbs : Type 0 where
  pub releases : Resource → List Resource → Bool

pub record VerbsLaws (v : Verbs) : Type 0 where
  pub busy :
      (r : Resource) (held : List Resource) → is_used r held ≡ true → v.releases r held ≡ false
  pub free :
      (r : Resource) (held : List Resource) → is_used r held ≡ false → v.releases r held ≡ true

-- The pointers that are not null, and `dmabuf`.
pub record Fields : Type 0 where
  pub qp : Bool
  pub out_cq : Bool
  pub in_cq : Bool
  pub pd : Bool
  pub send_mr : Bool
  pub write_mr : Bool
  pub dmabuf : Bool
  pub send_buf : Bool

abbrev pub where_set : Bool → Resource → List Resource
where_set true r = r ∷ []
where_set false r = []

-- The calls of the destructor, in its order.
unfoldable pub destructor : Fields → List Resource
destructor c =
    where_set c.qp queue_pair
    ++ where_set c.out_cq out_queue
    ++ where_set c.in_cq in_queue
    ++ where_set c.pd domain
    ++ where_set c.send_mr send_region
    ++ where_set c.write_mr write_region
    ++ where_set c.dmabuf mapping
    ++ where_set c.send_buf send_buffer

module _ (v : Verbs) where
  -- The destructor does not look at what its calls return.
  unfoldable pub release_all : List Resource → List Resource → List Resource
  unfolding without
  release_all [] held = held
  release_all (r ∷ rs) held = release_all rs (if v.releases r held then without r held else held)

-- A context as `open` and `register_write_buf` leave it.
abbrev pub served : Bool → Fields
served is_dmabuf = record {
  qp = true;
  out_cq = true;
  in_cq = true;
  pd = true;
  send_mr = true;
  write_mr = true;
  dmabuf = is_dmabuf;
  send_buf = true;
}

-- The destructor of a context that has been opened and whose write buffer is registered gives back
-- everything but the protection domain: it deallocates that while the two memory regions are still
-- registered, which the library refuses, and does not try again.
pub destructor_lem :
    (v : Verbs) (is_dmabuf : Bool)
    → VerbsLaws v
    → let c = served is_dmabuf in release_all v (destructor c) (destructor c) ≡ domain ∷ []
unfolding release_all destructor without holds
destructor_lem v is_dmabuf laws = by_kind is_dmabuf
  where
    by_kind :
        (b : Bool) → let c = served b in release_all v (destructor c) (destructor c) ≡ domain ∷ []
    by_kind true =
        rw
          (
            laws.free queue_pair _ refl,
            laws.free out_queue _ refl,
            laws.free in_queue _ refl,
            laws.busy domain _ refl,
            laws.free send_region _ refl,
            laws.free write_region _ refl,
            laws.free mapping _ refl,
            laws.free send_buffer _ refl,
          )
          refl
    by_kind false =
        rw
          (
            laws.free queue_pair _ refl,
            laws.free out_queue _ refl,
            laws.free in_queue _ refl,
            laws.busy domain _ refl,
            laws.free send_region _ refl,
            laws.free write_region _ refl,
            laws.free send_buffer _ refl,
          )
          refl
