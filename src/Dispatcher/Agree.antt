-- ===== src/Dispatcher/Agree.antt =====
-- The dispatcher's checks against the controller's, and what the result of a command says.
use m5stack_core_s3se_dmx_co.Base.{
  ℕ, ◌≡◌, ◌≢◌, refl, Bool, true, false, not, List, [], ◌∷◌, arith, pos, ◌==◌, ◌⊎◌,
}
use m5stack_core_s3se_dmx_co.Command.{
  Command, ControllerCommand, CommandSource, CommandStatus, DmxChannelValue,
}
use m5stack_core_s3se_dmx_co.Controller.{
  DmxController, set_channel, adjust_channel, set_channels, check_patch,
}
use m5stack_core_s3se_dmx_co.Controller.Presets.{
  load_preset, save_preset, copy_preset, clear_preset, replace_archive,
}
use m5stack_core_s3se_dmx_co.Controller.Types.{DmxPresetStorage, Result}
use m5stack_core_s3se_dmx_co.Dispatcher.{validate, apply, publish}
use m5stack_core_s3se_dmx_co.Dispatcher.Rules.{valid_payload, valid_patch, perform, domain_status}
use m5stack_core_s3se_dmx_co.Dispatcher.Types.{CommandDispatcher, Callbacks, DispatchResult}

valid_patch-check_patch :
    (earlier vs : List DmxChannelValue)
    → valid_patch earlier vs ≡ true
    → check_patch earlier vs ≡ Result.ok
unfolding valid_patch check_patch
valid_patch-check_patch earlier [] h = refl
valid_patch-check_patch earlier (v ∷ vs) h =
    ground (arith, valid_patch-check_patch (v ∷ earlier) vs)

-- The results that say that an argument was out of range.
abbrev pub InDomain : Result → Type 0
InDomain r = (r ≢ Result.invalid_channel) × (r ≢ Result.invalid_value) × (r ≢ Result.invalid_slot)

abbrev pub is_archive : Command → Bool
is_archive (Command.replace_presets token) = true
is_archive _ = false

module _ {S : Type 0} (store : DmxPresetStorage S) (answers : ℕ → Bool)
    (source : CommandSource) where
  -- A command that passes the dispatcher's checks is never found out of range by the controller: its result is
  -- not an invalid channel, value or slot, and, but for an archive, not an invalid patch.
  pub valid_payload-InDomain :
      (cmd : Command) (c : DmxController S)
      → valid_payload cmd source c ≡ true
      → let r = (perform store answers cmd c).1 in
        InDomain r × (is_archive cmd ≡ false → r ≢ Result.invalid_patch)
  unfolding valid_payload perform
  valid_payload-InDomain (Command.set_channel v) c h = unfold set_channel in ground arith
  valid_payload-InDomain (Command.adjust_channel v) c h =
      unfold set_channel adjust_channel in ground arith
  valid_payload-InDomain (Command.set_channels vs) c h =
      unfold set_channels in ground (arith, valid_patch-check_patch [] vs)
  valid_payload-InDomain (Command.set_blackout b) c h = ground arith
  valid_payload-InDomain (Command.load_preset (pos slot)) c h = unfold load_preset in ground arith
  valid_payload-InDomain (Command.save_preset (pos slot)) c h = unfold save_preset in ground arith
  valid_payload-InDomain (Command.copy_preset (pos slot) (pos target)) c h =
      unfold copy_preset in ground arith
  valid_payload-InDomain (Command.clear_preset (pos slot)) c h = unfold clear_preset in ground arith
  valid_payload-InDomain (Command.replace_presets token) c h =
      unfold replace_archive in ground arith
  valid_payload-InDomain Command.reset_sender c h = ground arith
  valid_payload-InDomain _ c h = ground arith

module _ {S E : Type 0} (store : DmxPresetStorage S) (callbacks : Callbacks S E) where
  publish_result :
      (cmd : ControllerCommand) (d : CommandDispatcher S E) (r : DispatchResult)
      → let (d', r') = publish store callbacks cmd d r in
        (r'.ticket ≡ r.ticket)
        × (r'.domain ≡ r.domain)
        × (r'.revision_before ≡ r.revision_before)
        × (r'.revision_after ≡ r.revision_after)
        × (d'.controller ≡ d.controller)
        × ((r'.status ≡ r.status)
            ⊎ ((r'.status ≡ CommandStatus.transport_error)
                × (r.domain ≡ Result.ok)
                × (r'.transport_result ≢ pos 0)))
  unfolding publish
  publish_result cmd d r = ground arith

  -- What the status of a command that was carried out says of its result.
  pub record Reported (c : DmxController S) (r : DispatchResult) : Type 0 where
    pub revision : r.revision_after ≡ c.revision
    pub applied :
        r.status ≡ CommandStatus.applied
        → (r.domain ≡ Result.ok) × (r.revision_after ≢ r.revision_before)
    pub no_change :
        r.status ≡ CommandStatus.no_change
        → (r.domain ≡ Result.ok) × (r.revision_after ≡ r.revision_before)
    pub transport_error :
        r.status ≡ CommandStatus.transport_error
        → (r.domain ≡ Result.ok) × (r.transport_result ≢ pos 0)
    pub failed :
        (r.status ≡ CommandStatus.rejected) ⊎ (r.status ≡ CommandStatus.storage_error)
        → r.domain ≢ Result.ok

  publish-Reported :
      (cmd : ControllerCommand) (d : CommandDispatcher S E) (r : DispatchResult)
      → r.revision_after ≡ d.controller.revision
      → r.status ≡ domain_status (not (r.revision_after == r.revision_before)) r.domain
      → Reported (publish store callbacks cmd d r).0.controller (publish store callbacks cmd d r).1
  publish-Reported cmd d r h k = ground (arith, publish_result cmd d r)

  -- A command that is not valid changes nothing and its result gives the reason, with the revision unchanged.
  -- A valid one is performed on the controller, once, and the result has what the controller returned, its
  -- ticket and the revisions before and after it: `applied` and `no_change`
  -- mean that its result is `ok`, with a new revision or the same; a transport error that it is `ok`
  -- and the publisher's code was not 0; `rejected` and `storage_error` that it is not.
  pub apply_result :
      (cmd : ControllerCommand) (ticket : ℕ) (d : CommandDispatcher S E)
      → let (d', r) = apply store callbacks cmd ticket d in
        (r.ticket ≡ ticket)
        × (r.revision_before ≡ d.controller.revision)
        × (validate cmd d ≢ CommandStatus.accepted
            → (d' ≡ d) × (r.status ≡ validate cmd d) × (r.revision_after ≡ r.revision_before))
        × (validate cmd d ≡ CommandStatus.accepted
            → let (c, result) = perform store (callbacks.gate d.context) cmd.command d.controller in
              (d'.controller ≡ c) × (r.domain ≡ result) × Reported d'.controller r)
  apply_result cmd ticket d = (tickets, revisions, refused, reported)
    where
      tickets : (apply store callbacks cmd ticket d).1.ticket ≡ ticket
      tickets = unfold apply publish in ground arith

      revisions : (apply store callbacks cmd ticket d).1.revision_before ≡ d.controller.revision
      revisions = unfold apply publish in ground arith

      refused :
          validate cmd d ≢ CommandStatus.accepted
          → let (d', r) = apply store callbacks cmd ticket d in
            (d' ≡ d) × (r.status ≡ validate cmd d) × (r.revision_after ≡ r.revision_before)
      refused h = unfold apply in ground arith

      reported :
          validate cmd d ≡ CommandStatus.accepted
          → let (d', r) = apply store callbacks cmd ticket d in
            let (c, result) = perform store (callbacks.gate d.context) cmd.command d.controller in
            (d'.controller ≡ c) × (r.domain ≡ result) × Reported d'.controller r
      reported h =
          let (c, domain) = perform store (callbacks.gate d.context) cmd.command d.controller in
          unfold apply in
          rw (h, apply)
            (
              (publish_result cmd (record d { controller = c }) _).4,
              (publish_result cmd (record d { controller = c }) _).1,
              publish-Reported cmd (record d { controller = c }) _ refl refl,
            )
