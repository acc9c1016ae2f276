-- ===== src/Upload/Save/Once.antt =====
-- However often it is tried, an event is stored at most once.
use thingsboard_gateway.Prelude.{
  ℕ, zero, suc, [], ◌∷◌, ◌++◌, ◌≡◌, ◌∙◌, Bool, true, false, if◌then◌else◌, Bool-cases, inl, inr,
}
use thingsboard_gateway.Storage.Contract.{EventStorage, IsTwoPhase}
use thingsboard_gateway.Upload.Save.{put_again, save}

module _ {S E : Type 0} {ops : EventStorage S E} (law : IsTwoPhase ops) where
  -- What a call of `save` has done to the storage `s`, given its result.
  pub record Saved (e : E) (s : S) (r : S × Bool) : Type 0 where
    pub kept : law.Inv s → law.Inv r.0
    pub pack : law.pack r.0 ≡ law.pack s
    pub pending : law.pending r.0 ≡ (if r.1 then law.pending s ++ e ∷ [] else law.pending s)

  put-Saved : (e : E) (s : S) → Saved e s (ops.put e s)
  put-Saved e s = record {
    kept = law.put-Inv e s;
    pack = law.put-pack e s;
    pending = elim (Bool-cases (ops.put e s).1) [
      | inl h ↦ rw h (law.put_taken e s h)
      | inr h ↦ rw h (law.put_refused e s h)
    ];
  }

  put_again-Saved :
      (tries : ℕ) (e : E) (s : S) (r : S × Bool) → Saved e s r → Saved e s (put_again ops tries e r)
  unfolding put_again
  put_again-Saved zero e s r h = h
  put_again-Saved (suc tries) e s (s', true) h = h
  put_again-Saved (suc tries) e s (s', false) h =
      let again = put-Saved e s' in
      put_again-Saved tries e s (ops.put e s') (record {
        kept = λ i. again.kept (h.kept i);
        pack = again.pack ∙ h.pack;
        pending = rw again.pending (rw h.pending);
      })

  -- `save` stores the event exactly once if it reports success and not at all otherwise; it hands
  -- out no pack and keeps the storage's invariant.
  pub save-Saved : (e : E) (s : S) → Saved e s (save ops e s)
  unfolding save
  save-Saved e s = put_again-Saved 4 e s (ops.put e s) (put-Saved e s)
