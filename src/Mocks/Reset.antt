-- ===== src/Mocks/Reset.antt =====
-- A window reset against the mocked enforcer.
use regional_rate_limiter.Prelude.{
  ℕ, zero, suc, String, true, Option, none, some, [], ◌∷◌, ◌++◌, ◌≡◌, refl, ap, arith, eq_refl,
}
use regional_rate_limiter.Prelude.Int.{ℤ, pos, ◌-ℤ◌, max_ℤ}
use regional_rate_limiter.Prelude.Dict
use regional_rate_limiter.Prelude.Dict.{get-put}
use regional_rate_limiter.Js.{Number, int, less, max_number, is_nan, Runtime, template}
use regional_rate_limiter.Validation.{LimitKey}
use regional_rate_limiter.Struct.{WireFields}
use regional_rate_limiter.Rpc.{
  Timestamp, timestamp_to_iso, converted, to_number, to_usage_view, UsageView,
}
use regional_rate_limiter.ActionLog
use regional_rate_limiter.ActionLog.{ActionLogEntry, refunded_details}
use regional_rate_limiter.World.{World, done, now, call, append_log, convert, pure, ◌>>=◌, draw}
use regional_rate_limiter.Operations.{OpContext, entry, reset_window, refund_consumed, req_id}
use regional_rate_limiter.Mocks.{Mocks, mock_backends}
use regional_rate_limiter.Mocks.Quotaenforcer.{
  map_key, Counter, LastRefund, Quotaenforcer, counter, refund, refunded, get_usage,
}

minus_self : (n : ℕ) → max_ℤ (pos 0) (pos n -ℤ pos n) ≡ pos 0
unfolding ◌-ℤ◌
minus_self n = ground arith

counter-put :
    (key : LimitKey) (c : Counter) (e e' : Quotaenforcer)
    → e'.state ≡ Dict.put (map_key key) c e.state
    → counter key e' ≡ c
counter-put key c e e' same =
    rw same (rw (get-put (map_key key) (map_key key) c e.state) (rw (eq_refl (map_key key)) refl))

-- A refund of all that was consumed.
refund_all :
    (key : LimitKey) (n : ℕ) (last : Option LastRefund) (e : Quotaenforcer)
    → (counter key e).consumed ≡ pos n
    → counter key (record {
      state = Dict.put (map_key key) (refunded (counter key e) (int (pos n))) e.state;
      last_refund = last;
    })
      ≡ record (counter key e) { consumed = pos 0 }
refund_all key n last e h =
    rw (get-put (map_key key) (map_key key) (refunded (counter key e) (int (pos n))) e.state) (
      rw (eq_refl (map_key key), h)
        (ap (λ z. record (counter key e) { consumed = z }) (minus_self n)))

less-suc : (m : ℕ) → less (int (pos 0)) (int (pos (suc m))) ≡ true
unfolding less
less-suc m = ground arith

max_suc : (m : ℕ) → max_number (int (pos (suc m))) (int (pos 0)) ≡ int (pos (suc m))
unfolding max_number less is_nan
max_suc m = ground arith

-- The id of the next request.
abbrev pub request_id : Runtime → ℕ → String
request_id rt n = template ("quotaui-" ∷ rt.random_hex n ∷ [])

-- What a reset leaves: the view that it answers with, the counter, and the log.
pub record IsReset (rt : Runtime) (ctx : OpContext) (key : LimitKey) (consumed : ℕ)
    (w w' : World Mocks) (view : UsageView) : Type 0 where
  pub shown : view.consumed ≡ int (pos 0)
  pub zeroed : (counter key w'.backend.enforcer).consumed ≡ pos 0
  pub kept : (counter key w'.backend.enforcer).limit ≡ (counter key w.backend.enforcer).limit
  pub logged :
      (e : ActionLogEntry) × (w'.log.entries ≡ w.log.entries ++ e ∷ [])
      × (e.act
          ≡ entry ctx "op:reset" key
              (refunded_details (int (pos consumed)))
              (some (request_id rt w.draws)))

module _ (rt : Runtime) (deliver : WireFields → WireFields) (wire : Number → Number)
    (now_ts : Timestamp) (ctx : OpContext) (key : LimitKey) (iso : Option String)
    (dated : timestamp_to_iso rt (some now_ts) ≡ converted iso) where
  -- Whatever a counter of the mocked enforcer holds, a reset refunds exactly that: it succeeds if
  -- the time of the answer can be written as a date, answers that nothing is consumed, leaves the
  -- counter at 0 with its limit as it was, and logs the amount refunded.
  pub reset_window-IsReset :
      (n : ℕ) (w : World Mocks)
      → (counter key w.backend.enforcer).consumed ≡ pos n
      → (view : UsageView) × ((reset_window rt (mock_backends deliver wire now_ts) ctx key w).0
          ≡ done view)
        × IsReset rt ctx key n w
            (reset_window rt (mock_backends deliver wire now_ts) ctx key w).1
            view
  unfolding reset_window refund_consumed req_id ◌>>=◌ now call append_log draw pure convert
      mock_backends get_usage refund to_usage_view ActionLog.append to_number max_number less is_nan
  reset_window-IsReset zero w h = rw h (
      rw dated (
        _,
        refl,
        record {
          shown = ap (λ (z : ℤ). int z) h;
          zeroed = h;
          kept = refl;
          logged = (_, refl, refl);
        },
      ))
  reset_window-IsReset (suc m) w h = rw h (
      rw (less-suc m) (
        rw dated (
          _,
          refl,
          record {
            shown =
                ap (λ (c : Counter). int c.consumed)
                  (refund_all key (suc m) none w.backend.enforcer h);
            zeroed =
                ap (λ (c : Counter). c.consumed) (refund_all key (suc m) none w.backend.enforcer h);
            kept = ap (λ (c : Counter). c.limit) (refund_all key (suc m) none w.backend.enforcer h);
            logged = (
              _,
              refl,
              ap
                  (λ (z : Number).
                    entry ctx "op:reset" key (refunded_details z) (some (request_id rt w.draws)))
                  (max_suc m),
            );
          },
        )))
