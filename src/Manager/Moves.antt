-- ===== src/Manager/Moves.antt =====
-- The operations of `src/manager.rs` that move an entry between rungs or take it away.
use the_six.Base.{
  ℕ, zero, suc, ◌+◌, ◌-◌, Bool, not, ◌&&◌, ◌||◌, Option, none, some, List, ◌==◌, leb, length,
  if◌then◌else◌,
}
use the_six.Base.Result.{CacheError, Result, ok, err, tier_unavailable, miss, configuration_error}
use the_six.Tier.{TierId, as_usize, from_usize, is_cache_rung, authority_rung_index}
use the_six.Tier.Interface.{CacheTier}
use the_six.Entry.{ready, move, CommitToken}
use the_six.Policy
use the_six.Policy.{CacheOperation, CacheState, PolicyDecision, last_cache_tier}
use the_six.Telemetry
use the_six.Control.Cachelito.{prepare, commit, invalidate, release}
use the_six.Control.Handlers.{is_state}
use the_six.Manager.{
  Task, option_case, result_case, pure, raise, lift, ◌>>=◌, ◌>>◌, attempt, guarded, gets, now_do,
  bounded, unbounded,
}
use the_six.Manager.Rungs.{
  CacheContext, encode_key, has_tier, on_index, on_rung, on_plane, record_outcome, observed_write,
}
use the_six.Manager.Reads.{observe, admit}
use the_six.Manager.Writes.{drop_guard, abort_plainly, remove_from}

module _ {V S : Type 0} (T : CacheTier V S) where
  -- An explicit abort, and the error that `move_entry` returns after it; the guard is disarmed.
  unfoldable pub give_up : CommitToken → CacheError → Task S (Result (Unit {0}))
  unfolding abort_plainly pure ◌>>=◌
  give_up token e = do _ ← abort_plainly token e; pure (err e)

  -- The end of `move_entry`, once the destination holds the value.
  unfoldable pub finish_move :
      TierId → TierId → List ℕ → Option ℕ → CommitToken → Task S (Result (Unit {0}))
  unfolding attempt unbounded now_do record_outcome on_plane commit give_up remove_from pure ◌>>=◌
      ◌>>◌
  finish_move from_tier to_tier key ttl token = do
    removed ← attempt (unbounded (remove_from T from_tier key))
    record_outcome from_tier removed
    committed ← attempt (now_do (on_plane (λ now plane. commit plane now token ttl)))
    result_case committed (λ _. pure (ok tt))
        (λ e. do _ ← attempt (unbounded (remove_from T to_tier key)); give_up token e)

  -- The write of the value to the destination.
  unfoldable pub put_value :
      TierId → TierId → List ℕ → V → Option ℕ → CommitToken → Task S (Result (Unit {0}))
  unfolding attempt observed_write record_outcome give_up finish_move ◌>>=◌ ◌>>◌
  put_value from_tier to_tier key value ttl token = do
    stored ← attempt (observed_write T Telemetry.promote key to_tier value ttl)
    record_outcome to_tier stored
    result_case stored (λ _. finish_move from_tier to_tier key ttl token) (λ e. give_up token e)

  -- The body of `move_entry` under its guard. The key is encoded again, for the same context.
  unfoldable pub move_value :
      TierId → TierId → List ℕ → Option ℕ → CommitToken → Task S (Result (Unit {0}))
  unfolding gets has_tier raise attempt bounded on_rung give_up put_value ◌>>=◌
  move_value from_tier to_tier key ttl token = do
    bound ← gets (λ s. has_tier s from_tier && has_tier s to_tier)
    if not bound then raise tier_unavailable else (do
      source ← attempt (bounded (on_rung from_tier (λ rung now. T.get rung now key)))
      result_case source
          (λ copy.
            option_case copy (λ value. put_value from_tier to_tier key value ttl token)
              (give_up token miss))
          (λ e. give_up token e))

  unfoldable pub move_entry : TierId → TierId → List ℕ → Option ℕ → Task S (Unit {0})
  unfolding now_do on_plane prepare guarded drop_guard move_value lift ◌>>=◌
  move_entry from_tier to_tier key ttl = do
    token ← now_do (on_plane (λ now plane. prepare plane now key none to_tier move))
    done ← guarded (drop_guard token) (move_value from_tier to_tier key ttl token)
    lift done

  -- `TierId::from_usize(..).ok_or(ConfigurationError)?`, and the move there.
  unfoldable pub move_to : Option TierId → TierId → List ℕ → Option ℕ → Task S (Unit {0})
  unfolding raise move_entry
  move_to none from_tier key ttl = raise configuration_error
  move_to (some to_tier) from_tier key ttl = move_entry from_tier to_tier key ttl

  module _ (select : CacheOperation → CacheState → Bool → PolicyDecision) where
    unfoldable pub promote : List ℕ → CacheContext → Task S (Unit {0})
    unfolding admit lift encode_key observe is_state raise is_cache_rung pure move_to from_usize
        as_usize ◌>>=◌
    promote key ctx = do
      _ ← admit T select Policy.promote ctx
      framed ← lift (encode_key key ctx)
      snapshot ← observe framed
      if not (is_state snapshot.state ready)
          then raise miss
          else if not (is_cache_rung snapshot.tier) || as_usize snapshot.tier == 0
          then pure tt
          else move_to (from_usize (as_usize snapshot.tier - 1)) snapshot.tier framed ctx.ttl

    unfoldable pub demote : List ℕ → CacheContext → Task S (Unit {0})
    unfolding admit lift encode_key observe is_state raise is_cache_rung pure move_to from_usize
        as_usize ◌>>=◌
    demote key ctx = do
      _ ← admit T select Policy.demote ctx
      framed ← lift (encode_key key ctx)
      snapshot ← observe framed
      if not (is_state snapshot.state ready)
          then raise miss
          else if not (is_cache_rung snapshot.tier)
              || leb (as_usize last_cache_tier) (as_usize snapshot.tier)
          then pure tt
          else move_to (from_usize (as_usize snapshot.tier + 1)) snapshot.tier framed ctx.ttl

    -- `invalidate`, which encodes the key after the gates.
    unfoldable pub invalidate_key : List ℕ → CacheContext → Task S (Unit {0})
    unfolding admit lift encode_key now_do on_plane invalidate ◌>>=◌
    invalidate_key key ctx = do
      _ ← admit T select Policy.invalidate ctx
      framed ← lift (encode_key key ctx)
      now_do (on_plane (λ _ plane. invalidate plane framed))

  -- The loop of `remove`, by the rungs that are left and the index of the next one. It leaves the
  -- authority's rung alone.
  unfoldable pub remove_all : ℕ → ℕ → List ℕ → Task S (Unit {0})
  unfolding pure attempt unbounded on_index ◌>>=◌
  remove_all zero idx key = pure tt
  remove_all (suc left) idx key =
      let rest = remove_all left (idx + 1) key in
      if idx == authority_rung_index
      then rest
      else (do _ ← attempt (unbounded (on_index idx (λ rung now. T.remove rung now key))); rest)

  module _ (select : CacheOperation → CacheState → Bool → PolicyDecision) where
    unfoldable pub remove : List ℕ → CacheContext → Task S (Unit {0})
    unfolding admit lift encode_key gets remove_all now_do on_plane release ◌>>=◌ ◌>>◌
    remove key ctx = do
      _ ← admit T select Policy.remove ctx
      framed ← lift (encode_key key ctx)
      bound ← gets (λ s. length s.rungs)
      remove_all bound 0 framed
      now_do (on_plane (λ _ plane. release plane framed))
