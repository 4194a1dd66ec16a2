-- ===== src/Packet/Query/Found.antt =====
-- What `getStats` finds for each clock.
use connectivity_exporter.Prelude.{ℕ, ◌≡◌, Option, none, some}
use connectivity_exporter.Prelude.GoMap.{get}
use connectivity_exporter.Packet.Ebpf.{Bpf, Kernel}
use connectivity_exporter.Packet.Query.{Named}
use connectivity_exporter.Packet.Query.Names.{AllLong, last_named}
use connectivity_exporter.Prelude.GoString.{GoString, GoString-discrete}

module _ (b : Bpf) (w : Kernel b) where
  -- An inner map that has been read: its iteration ended with no error, each key has room for two
  -- addresses, and a name has the counts of the last entry whose key has it.
  pub record Read (fd : ℕ) (named : Named) : Type 0 where
    pub ended : (b.inner.iterate (w.inner_maps fd)).1 ≡ none
    pub long : AllLong (b.inner.iterate (w.inner_maps fd)).0
    pub names :
        (name : GoString)
        → get GoString-discrete named name ≡ last_named (b.inner.iterate (w.inner_maps fd)).0 name

  -- What stands for a clock, before and after, by the inner map in its slot.
  pub data Finding (before after : Option (Option Named)) : Option ℕ → Type 0 where
    nothing : after ≡ before → Finding before after none
    counts :
        (fd : ℕ) (named : Named)
        → Read fd named
        → after ≡ some (some named)
        → Finding before after (some fd)
