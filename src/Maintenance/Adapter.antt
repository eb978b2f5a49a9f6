-- ===== src/Maintenance/Adapter.antt =====
-- include/maintenance_transport.h: the transport as the maintenance uses it to go dark and silent.
use m5stack_core_s3se_dmx_co.Base.{ℕ, Bool, true, false, not, ◌&&◌, ◌==◌, if◌then◌else◌, replicate}
use m5stack_core_s3se_dmx_co.Maintenance.{Step}
use m5stack_core_s3se_dmx_co.Transport.{poll, request_sender, service_tx, stage}
use m5stack_core_s3se_dmx_co.Transport.Types.{DmxTransport, Driver}

pub record MaintenanceTransport (D : Type 0) : Type 0 where
  pub transport : DmxTransport D
  pub goal : ℕ

module _ {D : Type 0} where
  pub begin : MaintenanceTransport D → MaintenanceTransport D
  begin m = record m { goal = 0 }

  -- `pendingBarriers` and `receiverReady` of src/dmx_transport.h.
  abbrev pending_barriers : DmxTransport D → Bool
  pending_barriers t = not (t.count == 0)

  abbrev receiver_ready : DmxTransport D → Bool
  receiver_ready t =
      not t.want_sender && not t.inflight && not t.status.write_mode && not t.health.fault_stopped

module _ {D : Type 0} (drv : Driver D) where
  -- The end of `zeroFrame`.
  serve : ℕ → MaintenanceTransport D → MaintenanceTransport D × Step
  serve now m =
      let t = (service_tx drv now m.transport).0 in
      (record m { transport = t }, if t.health.fault_stopped then Step.failed else Step.pending)

  pub zero_frame : ℕ → MaintenanceTransport D → MaintenanceTransport D × Step
  unfolding serve
  zero_frame now m =
      let (t, staged) = stage (replicate 513 0) true m.transport in
      if m.transport.health.fault_stopped
      then (m, Step.failed)
      else if not (m.goal == 0) && m.transport.health.completed == m.goal
      then (record m { goal = 0 }, Step.ready)
      else if m.goal == 0 && not (pending_barriers m.transport)
      then (if not staged
          then (m, Step.failed)
          else serve now (record m { transport = t; goal = t.health.requested }))
      else serve now m

  pub quiesce : ℕ → MaintenanceTransport D → MaintenanceTransport D × Step
  quiesce now m =
      let t = poll drv now (request_sender false m.transport) in
      (
        record m { transport = t },
        if t.health.fault_stopped
            then Step.failed
            else (if receiver_ready t then Step.ready else Step.pending),
      )
