-- ===== src/Session/Manager/Promote.antt =====
-- packages/session/src/index.ts: `promote` of the session manager.
use rote.Prelude.{ℕ, ◌+◌, String, Option, some, ◌==◌, if◌then◌else◌, Result, ok, err}
use rote.Session.Manager.{
  VirtualSessionMode, Base, StoredSession, ErrorCode, Manager, emit, change, Held, require_active,
  with_status, epoch_at, shadow, promoted, promotion_rejected, stale_context, scope_mismatch,
}

-- What `promote` does next.
pub data PromoteCall : Type 0 where
  refused : ErrorCode → PromoteCall
  stale : (shadow_object : Held) → PromoteCall
  promotes : (live_object shadow_object : Held) → PromoteCall

unfoldable pub against_live :
    String → Held → Base → Manager → Result ErrorCode Held → PromoteCall × Manager
unfolding emit
against_live id s b m (err c) = (refused c, m)
against_live id s b m (ok l) =
    if l.object.ref.epoch == b.live_epoch
    then (promotes l s, m)
    else (stale s, emit (promotion_rejected stale_context) id s.object.ref.epoch m)

unfoldable pub promote_attached :
    String → Held → VirtualSessionMode → Option Base → Manager → PromoteCall × Manager
unfolding against_live require_active emit
promote_attached id s shadow (some b) m = against_live id s b m (require_active b.live_id m)
promote_attached id s _ _ m =
    (refused scope_mismatch, emit (promotion_rejected scope_mismatch) id s.object.ref.epoch m)

unfoldable pub promote_held : String → Manager → Result ErrorCode Held → PromoteCall × Manager
unfolding promote_attached
promote_held id m (err c) = (refused c, m)
promote_held id m (ok s) = promote_attached id s s.object.ref.mode s.object.base m

-- `promote` up to the adapter's `promoteContext`, or to the clean-up of a stale shadow.
unfoldable pub begin_promote : String → Manager → PromoteCall × Manager
unfolding promote_held require_active
begin_promote id m = promote_held id m (require_active id m)

abbrev pub take_over : String → StoredSession → StoredSession
take_over context o = record o {
  context_id = context;
  ref = record (o.ref) { epoch = o.ref.epoch + 1 };
}

-- The rest of `promote`, with the context that the adapter returned: of the references to the live
-- session and the shadow.
unfoldable pub finish_promote :
    String → (live_handle shadow_handle : ℕ) → String → Manager → Manager
unfolding emit change
finish_promote id l s context m =
    let swapped = change s (with_status promoted) (change l (take_over context) m) in
    emit promoted id (epoch_at l swapped.objects) swapped
