-- ===== src/Group/Batch.antt =====
-- What `BuildBatchGroup` of frontend/group/group.cc puts into a batch.
use mathlib.Core.Path.{subst}
use mathlib.Core.List.{append_assoc, append-nil, map-append}
use pmraccess.Base.{
  ℕ, ◌+◌, ◌^◌, ◌<◌, ◌≤◌, ◌≡◌, refl, sym, ◌∙◌, ap, ap₂, true, false, Option, none, some, List, [],
  ◌∷◌, ◌++◌, map, arith, if◌then◌else◌, Bool-cases, inl, inr, length, leb, Bytes, Mem, load, store,
  load-store-load, store_below, length-load,
}
use pmraccess.Wire.{max_async_size, request_key_size, request_val_size, request_length}
use pmraccess.Store.{file_meta}
use pmraccess.Pmr.Pending.{Entry, batch_meta, AllStored, AllStored-append, AllStored-grow}
use pmraccess.Group.{Writer, WriteBatch, add_request, build_loop, build_batch_group}

abbrev pub key_of : Writer → Bytes
key_of w = load w.local_buf 16 (request_key_size w.local_buf 8)

abbrev pub val_of : Writer → Bytes
val_of w = load w.local_buf (16 + request_key_size w.local_buf 8) (request_val_size w.local_buf 8)

-- `Request::Length` of a writer's request, without the wrap.
abbrev pub size_of : Writer → ℕ
size_of w = 8 + request_key_size w.local_buf 8 + request_val_size w.local_buf 8

-- A request that fits a message buffer.
abbrev pub Fits : Writer → Type 0
Fits w = size_of w ≤ 4096

abbrev pub AllFit : List Writer → Type 0
AllFit [] = Unit {0}
AllFit (w ∷ ws) = Fits w × AllFit ws

-- The writers that a batch takes, when it has `len` bytes: up to the first that fills it.
unfoldable pub taken : ℕ → List Writer → List Writer
taken len [] = []
taken len (w ∷ ws) =
    let rest = taken (len + size_of w) ws in
    w ∷ (if leb max_async_size (len + size_of w) then [] else rest)

pub taken_nil : (len : ℕ) → taken len [] ≡ []
unfolding taken
taken_nil len = refl

-- Their records, laid out from `len` on.
unfoldable pub layout : ℕ → List Writer → List Entry
layout len [] = []
layout len (w ∷ ws) =
    record { off = len; key = key_of w; val = val_of w } ∷ layout (len + size_of w) ws

abbrev pub total_size : List Writer → ℕ
total_size [] = 0
total_size (w ∷ ws) = size_of w + total_size ws

-- The batch holds exactly the records `es`.
pub record Holds (b : WriteBatch) (es : List Entry) : Type 0 where
  pub keys : b.keys ≡ map (λ e. e.key) es
  pub descriptors : b.metas ≡ map batch_meta es
  pub stored : AllStored b.buffer 0 b.batch_length es

add_request-Holds :
    (b : WriteBatch) (es : List Entry) (w : Writer)
    → Holds b es
    → Fits w
    → b.batch_length < 2 ^ 31
    → Holds
        (add_request b w)
        (es ++ record { off = b.batch_length; key = key_of w; val = val_of w } ∷ [])
      × ((add_request b w).batch_length ≡ b.batch_length + size_of w)
unfolding add_request
add_request-Holds b es w holds fits small =
    let len : request_length w.local_buf 8 ≡ size_of w = omega arith in
    let e : Entry = record { off = b.batch_length; key = key_of w; val = val_of w } in
    let ks : length (key_of w) ≡ request_key_size w.local_buf 8 = length-load _ _ _ in
    let vs : length (val_of w) ≡ request_val_size w.local_buf 8 = length-load _ _ _ in
    let buf' : Mem = store b.buffer b.batch_length (load w.local_buf 8 (size_of w)) in
    let from : 8 + (8 + request_key_size w.local_buf 8) ≡ 16 + request_key_size w.local_buf 8 =
      omega arith in
    let copied : load buf' (b.batch_length + (8 + request_key_size w.local_buf 8))
          (request_val_size w.local_buf 8)
        ≡ val_of w =
      load-store-load b.buffer w.local_buf 8 b.batch_length (size_of w)
        (8 + request_key_size w.local_buf 8) (request_val_size w.local_buf 8) (omega arith)
      ∙ rw from in
    let at : 0 + b.batch_length + 8 + request_key_size w.local_buf 8
        ≡ b.batch_length + (8 + request_key_size w.local_buf 8) =
      omega arith in
    (
      record {
        keys =
            ap (λ k. k ++ key_of w ∷ []) holds.keys ∙ sym (map-append (λ e'. e'.key) es (e ∷ []));
        descriptors =
            ap₂ (λ k v. b.metas ++ file_meta 0 (b.batch_length + 8) k v ∷ []) (sym ks) (sym vs)
            ∙ ap (λ m. m ++ batch_meta e ∷ []) holds.descriptors
            ∙ sym (map-append batch_meta es (e ∷ []));
        stored = rw len (
            AllStored-append buf' 0 (b.batch_length + size_of w) es e
              (AllStored-grow b.buffer buf' 0 b.batch_length (b.batch_length + size_of w) es
                holds.stored (omega arith)
                (λ i p q.
                  store_below b.buffer b.batch_length (load w.local_buf 8 (size_of w)) i
                    (omega arith)))
              (record {
                inside = omega (arith, ks, vs);
                key_fits = omega (arith, ks);
                bytes = rw (ks, vs, at) copied;
              }));
      },
      rw len,
    )

abbrev pub last_of : List Writer → Option ℕ → Option ℕ
last_of [] last = last
last_of (w ∷ ws) last = last_of ws (some w.id)

-- What the loop of `BuildBatchGroup` returns from a batch that holds `es`.
record Built (ws : List Writer) (b : WriteBatch) (es : List Entry) (last : Option ℕ)
    (r : WriteBatch × Option ℕ) : Type 0 where
  holds : Holds r.0 (es ++ layout b.batch_length (taken b.batch_length ws))
  size : r.0.batch_length ≡ b.batch_length + total_size (taken b.batch_length ws)
  bound : r.0.batch_length < max_async_size + 4096
  chosen : r.1 ≡ last_of (taken b.batch_length ws) last

module _ (w : Writer) (ws : List Writer) (b : WriteBatch) (last : Option ℕ) where
  pub loop_full :
      leb max_async_size (add_request b w).batch_length ≡ true
      → build_loop (w ∷ ws) b last ≡ (add_request b w, some w.id)
  unfolding build_loop
  loop_full e = rw e

  pub loop_more :
      leb max_async_size (add_request b w).batch_length ≡ false
      → build_loop (w ∷ ws) b last ≡ build_loop ws (add_request b w) (some w.id)
  unfolding build_loop
  loop_more e = rw e

module _ (w : Writer) (ws : List Writer) (len : ℕ) where
  pub taken_full : leb max_async_size (len + size_of w) ≡ true → taken len (w ∷ ws) ≡ w ∷ []
  unfolding taken
  taken_full e = rw e

  pub taken_more :
      leb max_async_size (len + size_of w) ≡ false
      → taken len (w ∷ ws) ≡ w ∷ taken (len + size_of w) ws
  unfolding taken
  taken_more e = rw e

abbrev new_entry : WriteBatch → Writer → Entry
new_entry b w = record { off = b.batch_length; key = key_of w; val = val_of w }

module _ (w : Writer) (ws : List Writer) (b : WriteBatch) (es : List Entry) (last : Option ℕ)
    (h' : Holds (add_request b w) (es ++ new_entry b w ∷ []))
    (size : (add_request b w).batch_length ≡ b.batch_length + size_of w) where
  Built-full :
      Fits w
      → b.batch_length < max_async_size
      → leb max_async_size (b.batch_length + size_of w) ≡ true
      → Built (w ∷ ws) b es last (build_loop (w ∷ ws) b last)
  unfolding layout
  Built-full fit room full = rw (loop_full w ws b last (rw size full)) (record {
    holds = rw (taken_full w ws b.batch_length full) h';
    size = rw (taken_full w ws b.batch_length full) (omega (arith, size));
    bound = omega (arith, size);
    chosen = rw (taken_full w ws b.batch_length full);
  })

  Built-more :
      leb max_async_size (b.batch_length + size_of w) ≡ false
      → Built ws
          (add_request b w)
          (es ++ new_entry b w ∷ [])
          (some w.id)
          (build_loop ws (add_request b w) (some w.id))
      → Built (w ∷ ws) b es last (build_loop (w ∷ ws) b last)
  unfolding layout
  Built-more more ih =
      let r : WriteBatch × Option ℕ = build_loop ws (add_request b w) (some w.id) in
      let n : ℕ = b.batch_length + size_of w in
      let holds : Holds (r.0) ((es ++ new_entry b w ∷ []) ++ layout n (taken n ws)) =
        subst (λ m. Holds (r.0) ((es ++ new_entry b w ∷ []) ++ layout m (taken m ws))) size
          ih.holds in
      let total : (r.0).batch_length ≡ n + total_size (taken n ws) =
        subst (λ m. (r.0).batch_length ≡ m + total_size (taken m ws)) size ih.size in
      let last_taken : r.1 ≡ last_of (taken n ws) (some w.id) =
        subst (λ m. r.1 ≡ last_of (taken m ws) (some w.id)) size ih.chosen in
      rw (loop_more w ws b last (rw size more)) (record {
        holds = rw (taken_more w ws b.batch_length more) (
            subst (λ l. Holds (r.0) l)
              (append_assoc es (new_entry b w ∷ []) (layout n (taken n ws))) holds);
        size = rw (taken_more w ws b.batch_length more) (omega (arith, total));
        bound = ih.bound;
        chosen = rw (taken_more w ws b.batch_length more) last_taken;
      })

build_loop-Built :
    (ws : List Writer) (b : WriteBatch) (es : List Entry) (last : Option ℕ)
    → Holds b es
    → AllFit ws
    → b.batch_length < max_async_size
    → Built ws b es last (build_loop ws b last)
build_loop-Built [] b es last holds fit room =
    unfold build_loop taken layout in
    record { holds = rw append-nil holds; size = omega arith; bound = omega arith; chosen = refl }
build_loop-Built (w ∷ ws) b es last holds fit room =
    let (h', size) = add_request-Holds b es w holds (fit.0) (omega arith) in
    elim (Bool-cases (leb max_async_size (b.batch_length + size_of w))) [
      | inl full ↦ Built-full w ws b es last h' size (fit.0) room full
      | inr more ↦
          Built-more w ws b es last h' size more
            (build_loop-Built ws (add_request b w) _ (some w.id) h' (fit.1) (ground (arith, size)))
    ]

-- For requests of at most 4096 bytes, `BuildBatchGroup` takes writers from the front of the queue
-- until the batch has `MAX_ASYNC_SIZE` bytes or more: the batch has their keys, descriptors and
-- records, in their order, and the last writer is the last taken. Its length is less than
-- `MAX_ASYNC_SIZE` and one message buffer together.
pub build_batch_group_lem :
    (queue : List Writer) (old : WriteBatch)
    → AllFit queue
    → let r = build_batch_group queue old in
      Holds r.0 (layout 0 (taken 0 queue))
      × (r.0.batch_length ≡ total_size (taken 0 queue))
      × (r.0.batch_length < max_async_size + 4096)
      × (r.1 ≡ last_of (taken 0 queue) none)
unfolding build_batch_group
build_batch_group_lem queue old fit =
    let b0 : WriteBatch = record { batch_length = 0; keys = []; metas = []; buffer = old.buffer } in
    let built : Built queue b0 [] none (build_loop queue b0 none) =
      build_loop-Built queue b0 [] none (record { keys = refl; descriptors = refl; stored = tt })
        fit (omega arith) in
    (built.holds, omega (arith, built.size), built.bound, built.chosen)
