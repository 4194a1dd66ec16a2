-- ===== src/Promextra/Scrapes/Locked.antt =====
-- Who has the mutex of a histogram of connectivity-exporter/promextra/promextra.go.
use connectivity_exporter.Prelude.{ℕ, ◌≡◌, ◌⊎◌, inl, refl, ap, ◌∙◌, arith, Bool, true, false, List}
use connectivity_exporter.Promextra.{Snapshot}
use connectivity_exporter.Promextra.Scrapes.{Holder, ApplierAt, ScrapeAt, Memory, at_rest, Access}

-- What memory says, and what it will say when a store that has begun is over.
abbrev pub stored : Memory → Snapshot
stored m = record { total = m.total; buckets = m.buckets }

abbrev pub current_by : ApplierAt → Snapshot → Snapshot
current_by ApplierAt.idle v = v
current_by ApplierAt.unlocking v = v
current_by (ApplierAt.checking s) v = v
current_by (ApplierAt.storing s) v = s
current_by (ApplierAt.half_stored s) v = s

abbrev pub current : Memory → Snapshot
current m = current_by m.applying (stored m)

abbrev pub applier_in : ApplierAt → Bool
applier_in ApplierAt.idle = false
applier_in ApplierAt.unlocking = true
applier_in (ApplierAt.checking s) = true
applier_in (ApplierAt.storing s) = true
applier_in (ApplierAt.half_stored s) = true

abbrev pub scrape_in : ScrapeAt → Bool
scrape_in ScrapeAt.idle = false
scrape_in ScrapeAt.reading = true
scrape_in (ScrapeAt.half_read t) = true
scrape_in (ScrapeAt.copied s) = true
scrape_in (ScrapeAt.has s) = false

-- Who is between its lock and its unlock has the mutex, and finds what it has stored or read.
pub record Held (m : Memory) : Type 0 where
  pub applier_has : applier_in m.applying ≡ true → m.mutex ≡ Holder.applier
  pub scrape_has : (i : ℕ) → scrape_in (m.scrapes i) ≡ true → m.mutex ≡ Holder.scrape i
  pub half_stored : (s : Snapshot) → m.applying ≡ ApplierAt.half_stored s → m.total ≡ s.total
  pub half_read : (i t : ℕ) → m.scrapes i ≡ ScrapeAt.half_read t → t ≡ m.total
  pub copied : (i : ℕ) (s : Snapshot) → m.scrapes i ≡ ScrapeAt.copied s → s ≡ stored m

pub rest-Held : (s : Snapshot) → Held (at_rest s)
rest-Held s = record {
  applier_has = λ h. absurd (cc h);
  scrape_has = λ i h. absurd (cc h);
  half_stored = λ t h. absurd (cc h);
  half_read = λ i t h. absurd (cc h);
  copied = λ i t h. absurd (cc h);
}

pub Access-Held : {m m' : Memory} {now : List Snapshot} → Access m now m' → Held m → Held m'
Access-Held {m} (Access.lock_apply s p q) h = record {
  applier_has = λ e. refl;
  scrape_has = λ i e. absurd (cc (h.scrape_has i e, p));
  half_stored = λ t e. absurd (cc e);
  half_read = h.half_read;
  copied = h.copied;
}
Access-Held (Access.check_fits s p q) h = record {
  applier_has = λ e. h.applier_has (ap applier_in p);
  scrape_has = h.scrape_has;
  half_stored = λ t e. absurd (cc e);
  half_read = h.half_read;
  copied = h.copied;
}
Access-Held (Access.check_refuses s p q) h = record {
  applier_has = λ e. h.applier_has (ap applier_in p);
  scrape_has = h.scrape_has;
  half_stored = λ t e. absurd (cc e);
  half_read = h.half_read;
  copied = h.copied;
}
Access-Held (Access.store_total s p) h = record {
  applier_has = λ e. h.applier_has (ap applier_in p);
  scrape_has = h.scrape_has;
  half_stored = λ t e. cc;
  half_read =
      λ i t e. absurd (cc (h.applier_has (ap applier_in p), h.scrape_has i (ap scrape_in e)));
  copied = λ i t e. absurd (cc (h.applier_has (ap applier_in p), h.scrape_has i (ap scrape_in e)));
}
Access-Held (Access.store_buckets s p) h = record {
  applier_has = λ e. h.applier_has (ap applier_in p);
  scrape_has = h.scrape_has;
  half_stored = λ t e. absurd (cc e);
  half_read = h.half_read;
  copied = λ i t e. absurd (cc (h.applier_has (ap applier_in p), h.scrape_has i (ap scrape_in e)));
}
Access-Held (Access.unlock_apply p) h = record {
  applier_has = λ e. absurd (cc e);
  scrape_has = λ i e. absurd (cc (h.scrape_has i e, h.applier_has (ap applier_in p)));
  half_stored = λ t e. absurd (cc e);
  half_read = h.half_read;
  copied = h.copied;
}
Access-Held {m} (Access.lock_scrape i p q) h = record {
  applier_has = λ e. absurd (cc (h.applier_has e, p));
  scrape_has = λ j e. ground (arith, h.scrape_has j, e);
  half_stored = h.half_stored;
  half_read = λ j t e. ground (arith, h.half_read j t, e);
  copied = λ j t e. ground (arith, h.copied j t, e);
}
Access-Held {m} (Access.read_total i p) h = record {
  applier_has = h.applier_has;
  scrape_has = λ j e. ground (arith, h.scrape_has j, h.scrape_has i, e);
  half_stored = h.half_stored;
  half_read = λ j t e. ground (arith, h.half_read j t, e);
  copied = λ j t e. ground (arith, h.copied j t, e);
}
Access-Held {m} (Access.read_buckets i total p) h = record {
  applier_has = h.applier_has;
  scrape_has = λ j e. ground (arith, h.scrape_has j, h.scrape_has i, e);
  half_stored = h.half_stored;
  half_read = λ j t e. ground (arith, h.half_read j t, e);
  copied = λ j t e. ground (arith, h.copied j t, h.half_read i total p, e);
}
Access-Held {m} (Access.unlock_scrape i s p) h = record {
  applier_has = λ e. absurd (cc (h.applier_has e, h.scrape_has i (ap scrape_in p)));
  scrape_has = λ j e. ground (arith, h.scrape_has j, h.scrape_has i, e);
  half_stored = h.half_stored;
  half_read = λ j t e. ground (arith, h.half_read j t, e);
  copied = λ j t e. ground (arith, h.copied j t, e);
}
Access-Held {m} (Access.written i s p) h = record {
  applier_has = h.applier_has;
  scrape_has = λ j e. ground (arith, h.scrape_has j, e);
  half_stored = h.half_stored;
  half_read = λ j t e. ground (arith, h.half_read j t, e);
  copied = λ j t e. ground (arith, h.copied j t, e);
}

-- What a step returns to a scrape it had copied.
pub Access-returned :
    {m m' : Memory} {now : List Snapshot}
    → Access m now m'
    → (i : ℕ) (s : Snapshot) → m'.scrapes i ≡ ScrapeAt.has s
    → (m.scrapes i ≡ ScrapeAt.has s) ⊎ (m.scrapes i ≡ ScrapeAt.copied s)
Access-returned (Access.lock_apply t p q) i s e = inl e
Access-returned (Access.check_fits t p q) i s e = inl e
Access-returned (Access.check_refuses t p q) i s e = inl e
Access-returned (Access.store_total t p) i s e = inl e
Access-returned (Access.store_buckets t p) i s e = inl e
Access-returned (Access.unlock_apply p) i s e = inl e
Access-returned (Access.lock_scrape j p q) i s e = ground (arith, e)
Access-returned (Access.read_total j p) i s e = ground (arith, e)
Access-returned (Access.read_buckets j total p) i s e = ground (arith, e)
Access-returned (Access.unlock_scrape j t p) i s e = ground (arith, e, p)
Access-returned (Access.written j t p) i s e = ground (arith, e)

-- While a scrape has its copy and the mutex, no store has begun.
pub copied-current :
    (m : Memory) → Held m → (i : ℕ) (s : Snapshot) → m.scrapes i ≡ ScrapeAt.copied s → s ≡ current m
copied-current m h i s e = h.copied i s e ∙ by_applier m.applying refl
  where
    by_applier : (a : ApplierAt) → m.applying ≡ a → stored m ≡ current_by a (stored m)
    by_applier ApplierAt.idle p = refl
    by_applier ApplierAt.unlocking p = refl
    by_applier (ApplierAt.checking t) p = refl
    by_applier (ApplierAt.storing t) p =
        absurd (cc (h.applier_has (ap applier_in p), h.scrape_has i (ap scrape_in e)))
    by_applier (ApplierAt.half_stored t) p =
        absurd (cc (h.applier_has (ap applier_in p), h.scrape_has i (ap scrape_in e)))
