-- ===== src/Adapter/Discovery.antt =====
-- cli/src/driver/windows/adapter/mod.rs, the SCSI ports that answer as an adapter. A port's handle is
-- closed when its adapter does not answer; closing the handle of an adapter that is dropped later is not
-- modelled. The wait runs on fuel, a count of its rounds.
use wisp_disk.Base.{ℕ, zero, suc, ◌+◌, Option, none, some, List, [], ◌∷◌, ◌++◌, leb, if◌then◌else◌}
use wisp_disk.Base.Text.{Text, text, decimal}
use wisp_disk.Protocol.{QueryVersionResponse}
use wisp_disk.Errors.{Error, message, Result, ok, err}
use wisp_disk.Machine.{Windows, Process, Io, M}
use wisp_disk.Machine.Io.{call}
use wisp_disk.Machine.Loops.{run}
use wisp_disk.Machine.Polling.{poll, sleep_for}
use wisp_disk.Adapter.Requests.{Adapter, query_version}
use wisp_disk.Adapter.Reserved.{retry_interval}

-- `SCSI_PORT_LIMIT`.
abbrev pub scsi_port_limit : ℕ
scsi_port_limit = 256

-- `GENERIC_READ | GENERIC_WRITE`.
abbrev read_write : ℕ
read_write = 0x8000_0000 + 0x4000_0000

-- `count` ports from `port` on.
unfoldable pub ports_from : (port count : ℕ) → List ℕ
ports_from port zero = []
ports_from port (suc count) = port ∷ ports_from (suc port) count

port_path : ℕ → Text
port_path port = text "\\\\.\\Scsi" ++ (decimal port ++ text ":")

no_adapter : Error
no_adapter =
    message (text "driver was installed, but its SCSI adapter did not appear within 30 seconds")

module _ {W : Windows} where
  -- The answer to the version query; the handle is closed when there is none.
  answered : Adapter W → Result QueryVersionResponse × Process W → Option (Adapter W) × Process W
  answered adapter (ok version, p) = (some adapter, p)
  answered adapter (err e, p) = (none, record p { os = W.close_handle adapter.handle p.os })

  opened : ℕ → Result W.Handle × Process W → Option (Adapter W) × Process W
  unfolding answered
  opened port (err e, p) = (none, p)
  opened port (ok handle, p) =
      let adapter : Adapter W = record { handle = handle; port_number = port } in
      if leb scsi_port_limit port
      then (none, record p { os = W.close_handle handle p.os })
      else answered adapter (query_version adapter p)

  -- One port of `adapters`.
  unfoldable pub adapter_at : ℕ → Process W → Option (Adapter W) × Process W
  unfolding opened port_path
  adapter_at port p = opened port (call (W.create_file (port_path port) read_write) p)

  first_or :
      (Process W → Option (Adapter W) × Process W)
      → Option (Adapter W) × Process W
      → Option (Adapter W) × Process W
  first_or others (some adapter, p) = (some adapter, p)
  first_or others (none, p) = others p

  -- `next` of the scan over these ports.
  unfoldable pub first_adapter : List ℕ → Process W → Option (Adapter W) × Process W
  unfolding first_or
  first_adapter [] p = (none, p)
  first_adapter (port ∷ ports) p = first_or (first_adapter ports) (adapter_at port p)

  -- `adapters().next()`.
  unfoldable pub next_adapter : Io W (Option (Adapter W))
  next_adapter p = let (found, q) = first_adapter (ports_from 0 scsi_port_limit) p in (ok found, q)

  unfoldable pub wait_for_adapter : ℕ → ℕ → M W (Adapter W)
  unfolding no_adapter
  wait_for_adapter fuel timeout p =
      let (now, os) = W.now p.os in
      poll (run next_adapter) (sleep_for retry_interval) no_adapter (now + timeout) fuel
        (record p { os = os })
