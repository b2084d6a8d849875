-- ===== src/Session/Manager/Closing.antt =====
-- packages/session/src/index.ts: `evictInactive`, `closeAll` and `stats` of the session manager.
use rote.Prelude.{
  ℕ, String, some, none, Bool, true, false, not, ◌&&◌, List, [], ◌∷◌, length, select, if◌then◌else◌,
}
use rote.Session.Manager.{
  StoredSession, Manager, object_at, is_active, is_live, finish_cleanup, crash,
}

-- Whether the entry's object is active.
abbrev pub entry_is_active : List StoredSession → String × ℕ → Bool
entry_is_active os (id, h) = elim (object_at h os) [
  | none ↦ false
  | some o ↦ is_active o.ref.status
]

unfoldable pub evict_inactive : Manager → Manager
evict_inactive m = record m { sessions = select (entry_is_active m.objects) m.sessions }

-- The clean-ups of `closeAll`, with what `disposeContext` answers to each.
unfoldable pub close_each : List (String × ℕ) → (ℕ → Bool) → Manager → Manager
unfolding finish_cleanup
close_each [] disposed m = m
close_each ((id, h) ∷ ss) disposed m =
    close_each ss disposed (finish_cleanup id h crash (disposed h) m).1

unfoldable pub close_all : (ℕ → Bool) → Manager → Manager
unfolding close_each evict_inactive
close_all disposed m =
    evict_inactive (close_each (select (entry_is_active m.objects) m.sessions) disposed m)

-- Whether it is active and of the mode.
abbrev pub entry_is : Bool → List StoredSession → String × ℕ → Bool
entry_is in_live os (id, h) = elim (object_at h os) [
  | none ↦ false
  | some o ↦
      is_active o.ref.status && (if in_live then is_live o.ref.mode else not (is_live o.ref.mode))
]

pub record VirtualSessionStats : Type 0 where
  pub total : ℕ
  pub active : ℕ
  pub live : ℕ
  pub shadow : ℕ
  pub terminal : ℕ
  pub max_sessions : ℕ

unfoldable pub stats : Manager → VirtualSessionStats
stats m = record {
  total = length m.sessions;
  active = length (select (entry_is_active m.objects) m.sessions);
  live = length (select (entry_is true m.objects) m.sessions);
  shadow = length (select (entry_is false m.objects) m.sessions);
  terminal = length (select (λ e. not (entry_is_active m.objects e)) m.sessions);
  max_sessions = m.max_sessions;
}
