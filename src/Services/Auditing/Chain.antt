-- ===== src/Services/Auditing/Chain.antt =====
-- The hash chain of the audit log: when it is valid, and how one log extends another.
use eu_saas.Services.Respect.{Respects}
use eu_saas.Prelude.{
  ◌+◌, ◌≡◌, refl, sym, ap, ◌∙◌, List, [], ◌∷◌, ◌++◌, append-nil, append_assoc, reverse,
  reverse-append, find, ◌==◌, nat_eq,
}
use eu_saas.Domain.Values.{Uuid, Attributes}
use eu_saas.Domain.Audit.{Digest, AuditAction, AuditEntry, compute_entry_hash, audit_entry}
use eu_saas.Adapters.AuditEntries
use eu_saas.Container.{Container, World, running, modify}
use eu_saas.Container.Follows.{Preorder, Follows, modify-Follows, follow_rules}
use eu_saas.Services.Auditing.{hash_of, create_audit_entry}

-- `e` follows the entries `older`, newest first: its pointer is the hash of the last entry of its
-- own tenant, and its hash is that of its fields.
pub record IsLinked (d : Digest) (older : List AuditEntry) (e : AuditEntry) : Type 0 where
  pub pointer : e.previous_hash ≡ hash_of (find (λ o. o.tenant_id == e.tenant_id) older)
  pub hash : e.entry_hash ≡ compute_entry_hash d e.previous_hash e.action e.tenant_id e.timestamp

abbrev pub IsChained : Digest → List AuditEntry → Type 0
IsChained d [] = Unit
IsChained d (e ∷ older) = IsLinked d older e × IsChained d older

-- The log is a chain, from its newest entry back.
abbrev pub HasValidLog : World → Container → Type 0
HasValidLog w s = IsChained w.digest (reverse s.audit)

-- Nothing of the log is lost, and a log that was valid stays valid.
pub record Appends (w : World) (s t : Container) : Type 0 where
  pub added : List AuditEntry
  pub grown : t.audit ≡ s.audit ++ added
  pub valid : HasValidLog w s → HasValidLog w t

-- An action that leaves the log alone.
pub Appends-of_same : (w : World) (s t : Container) → t.audit ≡ s.audit → Appends w s t
Appends-of_same w s t e = record {
  added = [];
  grown = e ∙ sym (append-nil s.audit);
  valid = λ h. rw e h;
}

pub Appends-preorder : (w : World) → Preorder (Appends w)
Appends-preorder w = record {
  reflexive = λ s. Appends-of_same w s s refl;
  transitive = λ s t u p q. record {
    added = p.added ++ q.added;
    grown = q.grown ∙ ap (λ l. l ++ q.added) p.grown ∙ append_assoc s.audit p.added q.added;
    valid = λ h. q.valid (p.valid h);
  };
  calling = λ s. Appends-of_same w s (record s { calls = s.calls + 1 }) refl;
}

module _ (w : World) (tenant_id : Uuid) (action : AuditAction) (actor_id : Uuid)
    (details : Attributes) where
  pub create_audit_entry-Appends :
      Follows (Appends w) (create_audit_entry w tenant_id action actor_id details)
  unfolding create_audit_entry running AuditEntries.save AuditEntries.get_latest_entry audit_entry
  create_audit_entry-Appends = record {
    at = λ s. record {
      added = _;
      grown = refl;
      valid = λ h. rw reverse-append (record { pointer = refl; hash = refl }, h);
    };
  }

-- A write to another part of the container.
pub modify-Appends :
    (w : World) (f : Container → Container)
    → ((s : Container) → (f s).audit ≡ s.audit)
    → Follows (Appends w) (modify f)
modify-Appends w f h = modify-Follows (Appends-preorder w) f (λ s. Appends-of_same w s (f s) (h s))

pub ruleset append_rules =
    (follow_rules, Appends-preorder, create_audit_entry-Appends, modify-Appends)

pub Appends-Respects : (w : World) → Respects w (Appends w)
Appends-Respects w = record {
  preorder = Appends-preorder w;
  elsewhere = λ s t _ same _. Appends-of_same w s t same;
  auditing = create_audit_entry-Appends w;
}
