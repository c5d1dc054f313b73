-- ===== src/Replication/Targets.antt =====
-- replication_targets.go: the set of targets, as the command line gives it, and what is done to all.
use verm.Prelude.{
  ℕ, Bool, List, [], ◌∷◌, ◌++◌, map, Bytes, codes, split, ◌≡◌, ap, ap₂, ◌∙◌, if◌then◌else◌, Lacks,
  sym, append_assoc, append-nil, Option, none, some, All, All-append, ◌≢◌, arith, refl,
}
use verm.Prelude.Plain.{split_lacking, split-append}
use verm.Replication.Queue.{
  Target, started, enqueue_new_file, enqueue_replicated_file, enqueue_resync,
}

-- A target with its host name and its port.
pub record NamedTarget : Type 0 where
  pub hostname : Bytes
  pub port : Bytes
  pub queues : Target

-- `parseTarget`; further colons are ignored.
unfoldable pub host_and_port : List Bytes → Bytes × Bytes
host_and_port [] = ([], codes "3404")
host_and_port (hostname ∷ []) = (hostname, codes "3404")
host_and_port (hostname ∷ port ∷ parts) = (hostname, port)

unfoldable pub parse_target : Bytes → Bytes × Bytes
parse_target value = host_and_port (split value b':')

-- `NewReplicationTarget`
unfoldable pub new_replication_target : Bytes × Bytes → NamedTarget
new_replication_target (hostname, port) = record {
  hostname = hostname;
  port = port;
  queues = started;
}

-- `Set`: each part of the value between commas adds a target.
unfoldable pub add_targets : List Bytes → List NamedTarget → List NamedTarget
add_targets [] targets = targets
add_targets (s ∷ parts) targets =
    add_targets parts (targets ++ new_replication_target (parse_target s) ∷ [])

unfoldable pub set : Bytes → List NamedTarget → List NamedTarget
set value targets = add_targets (split value b',') targets

-- `EnqueueFile`
unfoldable pub enqueue_file : ℕ → Bytes → Bool → List NamedTarget → List NamedTarget
enqueue_file workers location replicating [] = []
enqueue_file workers location replicating (t ∷ targets) =
    record t {
      queues =
          if replicating
          then enqueue_replicated_file workers location t.queues
          else enqueue_new_file workers location t.queues;
    }
    ∷ enqueue_file workers location replicating targets

-- `EnqueueResync`
unfoldable pub enqueue_resync_all : List NamedTarget → List NamedTarget
enqueue_resync_all [] = []
enqueue_resync_all (t ∷ targets) =
    record t { queues = enqueue_resync t.queues } ∷ enqueue_resync_all targets

-- How a target is written on the command line.
unfoldable pub write_target : Bytes → Bytes → Bytes
write_target hostname port = hostname ++ b':' ∷ port

split_once : (x y : Bytes) (c : ℕ) → Lacks c x → Lacks c y → split (x ++ c ∷ y) c ≡ x ∷ y ∷ []
split_once x y c hx hy = split-append x y c hx ∙ ap (λ t. x ∷ t) (split_lacking y c hy)

-- A host name and a port without colons are read back from their text.
pub parse_target-write_target :
    (hostname port : Bytes)
    → Lacks b':' hostname
    → Lacks b':' port
    → parse_target (write_target hostname port) ≡ (hostname, port)
unfolding parse_target write_target host_and_port
parse_target-write_target hostname port hx hy =
    ap host_and_port (split_once hostname port b':' hx hy)

add_targets_lem :
    (parts : List Bytes) (targets : List NamedTarget)
    → add_targets parts targets
      ≡ targets ++ map (λ s. new_replication_target (parse_target s)) parts
unfolding add_targets
add_targets_lem [] targets = sym (append-nil targets)
add_targets_lem (s ∷ parts) targets =
    add_targets_lem parts (targets ++ new_replication_target (parse_target s) ∷ [])
    ∙ append_assoc targets (new_replication_target (parse_target s) ∷ [])
        (map (λ q. new_replication_target (parse_target q)) parts)

-- A target on the command line: its name, and its port where one is given.
abbrev pub Address : Type 0
Address = Bytes × Option Bytes

unfoldable pub write_address : Address → Bytes
write_address (hostname, none) = hostname
write_address (hostname, some port) = write_target hostname port

-- The targets between commas.
unfoldable pub write_addresses : Address → List Address → Bytes
write_addresses a [] = write_address a
write_addresses a (b ∷ more) = write_address a ++ b',' ∷ write_addresses b more

-- The target of an address: with the default port if none is given.
unfoldable pub addressed : Address → NamedTarget
addressed (hostname, none) = record { hostname = hostname; port = codes "3404"; queues = started }
addressed (hostname, some port) = record { hostname = hostname; port = port; queues = started }

-- The name and the port have neither commas nor colons.
unfoldable pub IsAddress : Address → Type 0
IsAddress (hostname, none) = Lacks b',' hostname × Lacks b':' hostname
IsAddress (hostname, some port) =
    (Lacks b',' hostname × Lacks b':' hostname) × (Lacks b',' port × Lacks b':' port)

parsed :
    (a : Address)
    → IsAddress a
    → new_replication_target (parse_target (write_address a)) ≡ addressed a
unfolding parse_target host_and_port new_replication_target
parsed (hostname, none) h =
    unfold write_address IsAddress addressed in
    ap (λ t. new_replication_target (host_and_port t)) (split_lacking hostname b':' h.1)
parsed (hostname, some port) h =
    unfold write_address IsAddress addressed in
    ap new_replication_target (parse_target-write_target hostname port h.0.1 h.1.1)

write_address-Lacks : (a : Address) → IsAddress a → Lacks b',' (write_address a)
unfolding write_address IsAddress write_target
write_address-Lacks (hostname, none) h = h.0
write_address-Lacks (hostname, some port) h =
    All-append (λ b. b ≢ b',') hostname (b':' ∷ port) h.0.0 (omega arith, h.1.0)

split-write_addresses :
    (a : Address) (more : List Address)
    → All IsAddress (a ∷ more)
    → split (write_addresses a more) b',' ≡ map write_address (a ∷ more)
unfolding write_addresses
split-write_addresses a [] h = split_lacking (write_address a) b',' (write_address-Lacks a h.0)
split-write_addresses a (b ∷ more) h =
    split-append (write_address a) (write_addresses b more) b',' (write_address-Lacks a h.0)
    ∙ ap (λ t. write_address a ∷ t) (split-write_addresses b more h.1)

parsed_each :
    (more : List Address)
    → All IsAddress more
    → map (λ s. new_replication_target (parse_target s)) (map write_address more)
      ≡ map addressed more
parsed_each [] h = refl
parsed_each (a ∷ more) h = ap₂ (λ x y. x ∷ y) (parsed a h.0) (parsed_each more h.1)

-- All targets that are given in one value, with names and ports without commas and colons, are added
-- in their order behind those that there are, with the default port where none is given, and with
-- nothing queued.
pub set-write_addresses :
    (a : Address) (more : List Address) (targets : List NamedTarget)
    → All IsAddress (a ∷ more)
    → set (write_addresses a more) targets ≡ targets ++ map addressed (a ∷ more)
unfolding set
set-write_addresses a more targets h =
    ap (λ parts. add_targets parts targets) (split-write_addresses a more h)
    ∙ add_targets_lem (map write_address (a ∷ more)) targets
    ∙ ap (λ t. targets ++ t) (parsed_each (a ∷ more) h)
