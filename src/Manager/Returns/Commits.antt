-- ===== src/Manager/Returns/Commits.antt =====
-- The commit that ends a `set` of `src/manager.rs`.
use the_six.Base.{ℕ, ◌≡◌, refl, true, Option, some, arith, Option-cases, inl, inr, ap, ◌∙◌, sym}
use the_six.Base.Result.{Result, ok, err}
use the_six.Tier.{TierId, as_u8, from_index, is_cache_rung}
use the_six.Tier.Codes.{from_index-as_u8}
use the_six.Integrity.{KeyAddress}
use the_six.Entry.{CommitToken}
use the_six.Control.ControlEntry.{ControlEntry}
use the_six.Control.Handlers.{commit_entry}
use the_six.Control.Cachelito.{Cachelito, commit, settle}
use the_six.Control.Cachelito.Lookup.{find, IsWellFormed}
use the_six.Control.Cachelito.Outcomes.{commit-Outcome, commit_missing}
use the_six.Control.TwoPhase.{Committed, commit_entry-Committed}

-- The entry of the address is what a commit has made of it: ready on a rung of the ladder, with the
-- lifetime, and without intent, owner and error.
pub record IsCommitted (a : KeyAddress) (ttl : Option ℕ) (c : Cachelito) : Type 0 where
  pub before : ControlEntry
  pub entry : ControlEntry
  pub time : ℕ
  pub rung : TierId
  pub found : find c a ≡ some entry
  pub committed : Committed before time rung ttl entry
  pub cache : is_cache_rung rung ≡ true

settle-ok :
    (e : ControlEntry) (r : Result ControlEntry) → (settle e r).1 ≡ ok tt → r ≡ ok (settle e r).0
settle-ok e (ok x) h = refl
settle-ok e (err x) h = absurd (ground (arith, h))

pub commit-IsCommitted :
    {c : Cachelito} (w : IsWellFormed c) (now : ℕ) (token : CommitToken) (ttl : Option ℕ)
    (rung : TierId) (a : KeyAddress)
    → token.address ≡ a
    → token.target_tier ≡ as_u8 rung
    → is_cache_rung rung ≡ true
    → (commit c now token ttl).1 ≡ ok tt
    → IsCommitted a ttl (commit c now token ttl).0
commit-IsCommitted {c = c} w now token ttl rung a same target cache success =
    elim (Option-cases (find c token.address)) [
      | inl missing ↦ absurd (ground (arith, commit_missing w now token ttl missing))
      | inr (e, found) ↦
          let out = commit-Outcome w now token ttl e found in
          let r = settle-ok e (commit_entry now token ttl e) (sym out.0 ∙ success) in
          record {
            before = e;
            entry = (settle e (commit_entry now token ttl e)).0;
            time = now;
            rung = rung;
            found = rw (← same) out.1;
            committed =
                commit_entry-Committed e now token ttl rung _
                  (ap from_index target ∙ from_index-as_u8 rung) r;
            cache = cache;
          }
    ]
