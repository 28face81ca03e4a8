-- ===== src/Rdma/Device.antt =====
-- `RDMADevice::make_rdma` of rdmautil/rdmautil.h, the attributes of a new queue pair, and the polling
-- of completions in rdmautil/rdmautil.cc.
use pmraccess.Base.{
  ℕ, zero, suc, ◌≡◌, ◌≢◌, Bool, true, false, Option, none, some, List, [], ◌∷◌, ◌++◌, if◌then◌else◌,
  ◌==◌, arith, bytes_eq, Bytes, replicate,
}
use pmraccess.Outcome.{Outcome, done, waiting}

-- An entry of `ibv_get_device_list`: its name, and what `ibv_open_device` makes of it.
pub record Listed : Type 0 where
  pub name : Bytes
  pub opened : Option ℕ

-- One device of the loop: the first that has the name and opens.
unfoldable pub try_open : Bool → Option ℕ → Option ℕ → Option ℕ
try_open false o rest = rest
try_open true none rest = rest
try_open true (some ctx) rest = some ctx

unfoldable pub find_device : Bytes → List Listed → Option ℕ
unfolding try_open
find_device dev_name [] = none
find_device dev_name (d ∷ ds) =
    try_open (bytes_eq dev_name d.name) d.opened (find_device dev_name ds)

-- `make_rdma`; `none` is the null list, and in the result the null pointer.
unfoldable pub make_rdma : Bytes → Option (List Listed) → Option ℕ
unfolding find_device
make_rdma dev_name none = none
make_rdma dev_name (some devices) = find_device dev_name devices

-- `get_default_qp_init_attr`: a reliable connection; the queues are filled in by `open`.
pub record QpInitAttr : Type 0 where
  pub sq_sig_all : ℕ
  pub max_send_wr : ℕ
  pub max_recv_wr : ℕ
  pub max_send_sge : ℕ
  pub max_recv_sge : ℕ
  pub max_inline_data : ℕ

unfoldable pub qp_init_attr : QpInitAttr
qp_init_attr = record {
  sq_sig_all = 0;
  max_send_wr = 8;
  max_recv_wr = 8;
  max_send_sge = 1;
  max_recv_sge = 1;
  max_inline_data = 128;
}

-- `poll_one_completion`, on what `ibv_poll_cq` answers one call after the other: it polls until the
-- answer is not 0.
unfoldable pub poll_one_completion {ℓ} : {A : Type ℓ} → (A → Bool) → List A → Outcome A
poll_one_completion is_zero [] = waiting
poll_one_completion is_zero (ret ∷ rets) =
    let rest = poll_one_completion is_zero rets in if is_zero ret then rest else done ret

-- However often the queue is found empty first, polling ends with the first answer that is not 0.
pub poll_one_completion_lem :
    (n ret : ℕ) (rets : List ℕ)
    → ret ≢ 0
    → poll_one_completion (λ x. x == 0) (replicate n 0 ++ ret ∷ rets) ≡ done ret
unfolding poll_one_completion
poll_one_completion_lem zero ret rets ne = ground arith
poll_one_completion_lem (suc n) ret rets ne = poll_one_completion_lem n ret rets ne

-- Where no device of a list is found, one behind them that has the name and opens is the device that
-- `make_rdma` makes: devices that do not open, or have other names, are passed over.
pub make_rdma_lem :
    (dev_name : Bytes) (ctx : ℕ) (before after : List Listed) (d : Listed)
    → find_device dev_name before ≡ none
    → bytes_eq dev_name d.name ≡ true
    → d.opened ≡ some ctx
    → make_rdma dev_name (some (before ++ d ∷ after)) ≡ some ctx
unfolding make_rdma find_device try_open
make_rdma_lem dev_name ctx [] after d e same opens = rw (same, opens)
make_rdma_lem dev_name ctx (x ∷ before) after d e same opens =
    passed (bytes_eq dev_name x.name) x.opened e
      (λ p. make_rdma_lem dev_name ctx before after d p same opens)
  where
    passed :
        (b : Bool) (o : Option ℕ) {r r' : Option ℕ}
        → try_open b o r ≡ none
        → (r ≡ none → r' ≡ some ctx)
        → try_open b o r' ≡ some ctx
    passed false o p k = k p
    passed true none p k = k p
    passed true (some y) p k = cc
