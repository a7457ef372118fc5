-- ===== src/Store/Ops/Separate.antt =====
-- Entries in flight do not share their files: internal/store/memory.go and blobs.go.
use http_debug.Base.{
  ◌≡◌, refl, sym, ap, ◌∙◌, subst, Option, none, some, [], Str, str_eq, str_eq_iff, if_true,
  if_false, Bool-cases, ◌⊎◌, inl, inr, arith,
}
use http_debug.Base.Map.{lookup, insert, delete, lookup-insert, lookup-delete}
use http_debug.Time.{Time}
use http_debug.Store.Entry.{Entry, side_response}
use http_debug.Store.Disk.{Disk}
use http_debug.Store.Disk.Separate.{OwnFiles, Evolves, Evolves-refl, Wrote-Evolves}
use http_debug.Store.Blobs.{BlobStore, BodyBuffer, write_body}
use http_debug.Store.Blobs.Apart.{OwnHandle, Evolves-OwnHandle, write_body-Writes}
use http_debug.Store.Blobs.Body.{write_body-name}
use http_debug.Store.Memory.{mem_put, new_live, LiveEntry, MemStore}
use http_debug.Store.Sqlite.{Sqlite}
use http_debug.Store.Ops.{Store}

-- The files of one entry in flight: those of its two buffers, under their own paths.
pub record Files (b : BlobStore) (j : Str) (live : LiveEntry) (d : Disk) : Type 0 where
  pub req : OwnHandle b live.req d
  pub resp : OwnHandle b live.resp d
  pub named : (live.resp.id ≡ j) × (live.resp.side ≡ side_response)

-- The entries in flight, each with files of its own.
pub record Separate (b : BlobStore) (m : MemStore) (d : Disk) : Type 0 where
  pub files : OwnFiles d
  pub each : (j : Str) (live : LiveEntry) → lookup j m ≡ some live → Files b j live d

found_cases :
    (j l : Str) (live' live : LiveEntry) (m : MemStore)
    → lookup l (insert j live' m) ≡ some live
    → ((j ≡ l) × (live' ≡ live)) ⊎ (lookup l m ≡ some live)
found_cases j l live' live m h = elim (Bool-cases (str_eq j l)) [
  | inl same ↦
      let e : some live' ≡ some live = sym (lookup-insert j l live' m ∙ if_true _ _ same) ∙ h in
      inl (
        (str_eq_iff j l).0 same,
        ap (λ (o : Option LiveEntry). elim o [ none ↦ live' | some x ↦ x ]) e,
      )
  | inr other ↦ inr (sym (lookup-insert j l live' m ∙ if_false _ _ other) ∙ h)
]

Evolves-Files :
    (b : BlobStore) (j : Str) (live : LiveEntry) {d d' : Disk}
    → Evolves d d'
    → Files b j live d
    → Files b j live d'
Evolves-Files b j live e f = record {
  req = Evolves-OwnHandle b live.req e f.req;
  resp = Evolves-OwnHandle b live.resp e f.resp;
  named = f.named;
}

pub Evolves-Separate :
    (b : BlobStore) (m : MemStore) {d d' : Disk} → Evolves d d' → Separate b m d → Separate b m d'
Evolves-Separate b m e h = record {
  files = e.files h.files;
  each = λ j live f. Evolves-Files b j live e (h.each j live f);
}

pub insert-Separate :
    (b : BlobStore) (m : MemStore) (j : Str) (live : LiveEntry) {d d' : Disk}
    → Evolves d d'
    → Separate b m d
    → Files b j live d'
    → Separate b (insert j live m) d'
insert-Separate b m j live {d} {d'} e h k = record {
  files = e.files h.files;
  each = λ l lv f. elim (found_cases j l live lv m f) [
    | inl new ↦ subst (λ i. Files b i lv d') new.0 (subst (λ x. Files b j x d') new.1 k)
    | inr old ↦ Evolves-Files b l lv e (h.each l lv old)
  ];
}

pub delete-Separate :
    (b : BlobStore) (m : MemStore) (j : Str) (d : Disk) → Separate b m d → Separate b (delete j m) d
delete-Separate b m j d h = record {
  files = h.files;
  each = λ l lv f. h.each l lv (ground (arith, f, lookup-delete j l m));
}

pub Separate-empty : (b : BlobStore) (d : Disk) → OwnFiles d → Separate b [] d
unfolding lookup
Separate-empty b d o = record { files = o; each = λ j live e. absurd (ground (arith, e)) }

-- A buffer whose file is not open.
pub closed-OwnHandle : (b : BlobStore) (x : BodyBuffer) (d : Disk) → x.file ≡ none → OwnHandle b x d
closed-OwnHandle b x d e i f = absurd (ground (arith, e, f))

-- An entry that is registered has buffers without files.
pub mem_put-Separate :
    (b : BlobStore) (e : Entry) (now : Time) (m : MemStore) (d : Disk)
    → Separate b m d
    → Separate b (mem_put e now m) d
unfolding mem_put
mem_put-Separate b e now m d h =
    insert-Separate b m e.id (new_live e now) (Evolves-refl d) h (record {
      req = closed-OwnHandle b (new_live e now).req d refl;
      resp = closed-OwnHandle b (new_live e now).resp d refl;
      named = (refl, refl);
    })

-- A write to the response of an entry.
pub write_body-Separate :
    (b : BlobStore) (m : MemStore) (d : Disk) (j chunk : Str) (live live' : LiveEntry)
    → Separate b m d
    → lookup j m ≡ some live
    → live'.resp ≡ (write_body b chunk live.resp d).1
    → live'.req ≡ live.req
    → Separate b (insert j live' m) (write_body b chunk live.resp d).2
write_body-Separate b m d j chunk live live' h e r q =
    let k = h.each j live e in
    let w = write_body-Writes b chunk live.resp d h.files k.resp in
    let n = write_body-name b chunk live.resp d in
    let d' = (write_body b chunk live.resp d).2 in
    insert-Separate b m j live' (Wrote-Evolves w.wrote) h (record {
      req =
          subst (λ x. OwnHandle b x d') (sym q)
            (Evolves-OwnHandle b live.req (Wrote-Evolves w.wrote) k.req);
      resp = subst (λ x. OwnHandle b x d') (sym r) w.handle;
      named = (ap (λ x. x.id) r ∙ n.0 ∙ k.named.0, ap (λ x. x.side) r ∙ n.1 ∙ k.named.1);
    })

module _ {sql : Sqlite} where
  abbrev pub IsSeparate : Store sql → Type 0
  IsSeparate s = Separate s.blobs s.mem s.disk
