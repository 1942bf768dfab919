-- ===== src/Lib.antt =====
-- kite-kvm: an agent that runs on one host, keeps the VMs of that host in a SQLite database, and
-- carries out requests on them as jobs against libvirt.
--
-- The parts, and the files that model them:
--   * internal/model/model.go: Model. The records and constants that the other parts share.
--   * internal/store/sqlite.go: Store. `Store.Db.Db` is the database, with the schedule of the
--     statements that fail; Store.Vms, Store.Jobs, Store.Ips and Store.Idempotency are the four
--     tables, one function for each method (GetVM is `get_vm`), over the keyed rows of Store.Table.
--     Store.Migrations is Open and internal/store/migrations.go, over a `SchemaDb`.
--   * internal/network: Network.Address (ip4ToU32, u32ToIP4), Network.Subnet (subnetHosts,
--     expandCIDRHosts), Network.Pool (expandPool), Network.Strategy (the strategies nat and bridge,
--     and the manager that chooses one).
--   * internal/config/config.go and internal/catalog/catalog.go: Config. The lookups; Config.Settings
--     (the decoded file, applyEnv, applyDefaults) and Config.Validation (Validate, NewManager).
--   * internal/domainxml/domainxml.go: DomainXml. Validation and building of the documents.
--   * internal/provision: Provision.Yaml (yamlQuote), Provision.CloudInit (the seed documents);
--     Prepare stands with its callers in Vm.Provisioning.
--   * internal/libvirt/conn.go: Libvirt. The interface `Conn` over a state `H` of the host.
--   * internal/libvirt/libvirtconn.go: Libvirt.Client, with Calls (domains, leases, snapshots), Storage,
--     Documents and Reports (statistics, host). The client of libvirtd, as a `Conn (Client L)`.
--   * internal/libvirt/fake.go: Libvirt.Fake. The in-memory hypervisor, as a `Conn Fake`;
--     Libvirt.Fake.PowerStates holds the abstract map of power states that it is compared with.
--   * internal/job/queue.go: Job. `Queue` is the node and the scheduled ids, `process` the round of
--     a worker with one id, `recover` the pass at the start.
--   * internal/vm: Vm. `Vm.Env` is what a Service holds besides its state; Vm.Links (domain
--     document, link, teardown), Vm.Lifecycle (power, suspend, unsuspend, terminate),
--     Vm.Provisioning (create, reseed, rebuild, resize), Vm.Traffic (counters, quota, block),
--     Vm.Dispatch (snapshots, RunJob, ReconcileOnStart).
--   * internal/vm, the requests before a job: Vm.Requests (operations, rebuild, resize, snapshots,
--     console), with Validation (validate.go), Admission (host.go), Create, Listing (List, Get,
--     Status), and Vm.Stats (stats.go).
--   * internal/console/token.go: Console. Mint, Redeem and the sweep.
--   * internal/api: Api.Idempotency (the middleware before a handler), Api.Access (bearer tokens and
--     the source allowlist), Api.Errors, Api.Exchange (the state `Site` behind the API, responses),
--     Api.Handlers, and Api.Router, whose `serve` is NewRouter from the matched route on.
--   * cmd/kite-kvm/main.go: Agent. What run does with the database and the host before it serves.
--
-- How they interact: a request stores a job and schedules its id. A worker takes an id, marks the
-- job running, calls the runner with it and writes the verdict back. The runner is `Vm.run_job`,
-- which reads the VM's record, allocates or releases addresses, calls libvirt, and writes the record.
-- The state that a runner changes is `Node.Node`: the database, the host, and the traffic counters
-- that the service keeps in memory. A method is a function of type `Exec` (Prelude.Effects): it
-- returns a value or an error with the state, and what was written before an error stays written.
-- An error wrapped by Errorf keeps what errors.Is can tell apart, and loses its text.
--
-- What is a parameter: libvirt (go-libvirt as `Rpc`, and for the services any `Conn`, with any
-- state and any answers), the file system, the package net with strconv.Itoa and strings.TrimSpace
-- (`NetLib`), the encoder of libvirtxml (`Marshal`), filepath.Join, SHA-256, float64 arithmetic
-- (`FloatLib`), ssh.ParseAuthorizedKey, the JSON codec (`Codec`), the addresses of package net that
-- the API compares (`AddressLib`), chi's matching of paths, what the SQL of a migration does to the
-- schema, and what is drawn at random (`Vm.Fresh`, `Console.MintCall`, `Drawn`, `Draw`). Theorems
-- name as hypotheses what they use of them.
--
-- Numbers: uint32 and uint64 arithmetic keeps its wrap-around, written `% 2 ^ 32` and `% 2 ^ 64`; a
-- time is a number of nanoseconds, and rows are listed in the order of their times. The loop of
-- expandCIDRHosts, whose counter can wrap round, runs on fuel: 2^32 rounds are enough for every
-- network that does not end at 255.255.255.255, and no fuel is enough for a prefix of 31 or 32 bits
-- that does. The other loops are structural.
--
-- Goroutines: the queue's workers and timers are the list of scheduled ids, and an interleaving is
-- an order of calls of `process`, or of transactions on the addresses (Store.Ips.Ownership.IpOp);
-- a run of a runner is one step.
--
-- Not modelled: the TLS server, the websocket proxy and the rest of program start, which are calls
-- of other code, I/O, or glue around the parts above, and the texts that times and lists have in the
-- database. Error messages and log lines are left out, and so are the inspection helpers that the
-- fake has for tests.
mod Prelude
pub mod Model
pub mod Network
pub mod Store
pub mod DomainXml
pub mod Libvirt
pub mod Node
pub mod Job
pub mod Provision
pub mod Config
pub mod Vm
pub mod Console
pub mod Agent
pub mod Api
mod Examples
