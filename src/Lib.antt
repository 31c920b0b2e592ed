-- ===== src/Lib.antt =====
-- Keel, an orchestrator of FreeBSD jails: a control plane and an agent on every node. This library
-- models the parts that decide: what a specification may say, where jails and replicas go, which
-- addresses they have, and how an agent brings jails up and takes them down.
--
-- Base has what the components share: Boolean tests, lists, results, byte strings, decimal numbers,
-- dictionaries (the hash maps, as association lists), sorting by name and powers of two. Extern has,
-- as records, what comes from outside the repository: the f64 arithmetic, the crate ipnet, the
-- address parser and the YAML reader, each with the laws that the program relies on.
--
-- Spec is keel-spec/src: Types and Equality (types.rs and error.rs, with the derived equality of a
-- template), Names, Volumes and Hosts (validate.rs), Resources (resources.rs), Parse (lib.rs).
--
-- Plane is keel-controlplane/src. Subnet (subnet.rs) hashes names to blocks and addresses, with the
-- 32-bit wrap-around written out; a panic is the result `none`. Scheduler (scheduler.rs) picks a node.
-- Addresses (addresses.rs) has the addresses in use. Bookkeeping has placements.rs, standbys.rs and
-- pending_fences.rs. Registry (registry.rs, wire.rs) has the nodes and their heartbeats; instants and
-- durations are nanoseconds, and a saturating difference is subtraction that stops at 0. Services
-- (services.rs) has the services, the names of their replicas and the plan. Worker (worker.rs) has the
-- thread that owns all of this: Handle has its state, its commands and `handle_command` as a function
-- of state, instant and command; Nodes, Replicas, Reconcile and Repin have the longer commands. Http
-- (http.rs) has what a request's thread does with the worker's answers: the execution of replica
-- actions, of fences and of a forced repin, the requests on a jail whose node the worker finds and
-- those on a service, with the request to a node as a parameter. Requests run in threads: before each
-- command of a thread the worker handles some commands of others, and it reads the clock at each; a
-- Run goes through a given sequence of such turns, and Quiet is about those that change nothing.
--
-- Agent is keel-agentd/src with the crates that it reaches the node through. Backoff (backoff.rs) has
-- the delay between the starts of a jail. Host has the traits of keel-jail, keel-zfs and keel-net with
-- their errors, and Host.Fake the node in memory (the fake.rs of each). Files has what is used of
-- std::fs and std::path, Ingress the traits of keel-ingress and nginx.rs with the text of nginx's
-- configuration. Record (record.rs) has a jail's names and paths, Store (store.rs, ingress_store.rs,
-- ingress_record.rs) the files of the records; Store.Durable, Store.Loaded and Store.Restart run the
-- stores on files in memory (Files.Memory), and Store.Simulated carries that over to any files that
-- a view shows to act like these. Reconciler (reconciler.rs) has the state and the
-- operations on what is wanted, Checks their guards, Provision the steps on the node, Reconciler.Pass
-- the pass over all jails, Reconciler.Ingresses the certificates and nginx. Worker (worker.rs) has the
-- thread with its commands. A step is a function of the state, which gives the state after it and a
-- result or an error (Base.Effects); a Site is all that the steps rest on.
--
-- Samples instantiates the interfaces of Extern and applies the theorems to concrete inputs.
--
-- Fuel: the probe for a virtual address is bounded by the size of the service network, as in the
-- source; the search for missing indices looks at as many numbers as replicas are wanted, which are
-- enough, since all that are wanted are below that; printing a number has more rounds than the number has digits.
--
-- A hash map is an association list whose order says nothing; a string is its UTF-8 bytes; an IPv4
-- address is a number below 2^32. A path is its bytes. The services' addresses, which another thread
-- writes, are a field of the reconciler's state.
--
-- Not modelled: the implementations of the traits on FreeBSD, the clients of ACME and OVH, the protocol
-- of replication, the agent's HTTP server, registration and proxy, the command-line client, TLS and
-- sockets: they are I/O, or they rest on the wrappers of system calls.
pub mod Base
pub mod Extern
pub mod Spec
pub mod Plane
pub mod Agent
pub mod Samples
