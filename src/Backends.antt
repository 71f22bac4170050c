-- ===== src/Backends.antt =====
-- go/internal/backends/backend.go: the contract of a host scheduler, over the type `S` of what the
-- scheduler holds. A method that changes the scheduler returns the new state and the text of its
-- error. `Ensure`, `Validate` and `History` are no part of reconciliation and stand with the
-- backends.
use cronix.Prelude.{ℕ, Option, List}
use cronix.Prelude.Text.{Text}
use cronix.Manifest.{NormalizedJob}

-- An index is a schedule's position, parsed from the digits of an ownership marker.
pub record ManagedEntry : Type 0 where
  pub app : Text
  pub job : Text
  pub hash : Text
  pub index : ℕ
  pub raw : Text

pub data Listing : Type 0 where
  listed : List ManagedEntry → Listing
  list_error : Text → Listing

pub record Backend (S : Type 0) : Type 0 where
  pub name : Text
  pub list : S → Listing
  pub create : S → Text → NormalizedJob → S × Option Text
  pub update : S → Text → NormalizedJob → S × Option Text
  pub delete : S → Text → Text → S × Option Text
