-- ===== src/Mongo/Service/Roles.antt =====
-- The process of a container by the role that the cluster gives it, and what is mounted for it.
use Prim.Native.String.{String}
use yggdrasil_home.Base.{
  ◌≡◌, Bool, true, false, ◌&&◌, Option, none, some, List, [], ◌∷◌, ◌==◌, if◌then◌else◌, is_blank,
  any,
}
use yggdrasil_home.Mongo.Guest.{World, Volume}
use yggdrasil_home.Mongo.Service.{Cluster, command_of, container_volumes, is_router, cluster_key}

-- A path of the host is mounted at a place of the container in a mode.
abbrev pub is_mount : String → String → String → Volume → Bool
is_mount path place mode volume =
    (volume.path == path) && ((volume.bind == place) && (volume.mode == mode))

abbrev pub is_bound : String → Volume → Bool
is_bound place volume = volume.bind == place

abbrev first_word : List String → String
first_word [] = ""
first_word (word ∷ words) = word

abbrev pub last_word : String → List String → String
last_word last [] = last
last_word last (word ∷ words) = last_word word words

-- The word behind an option of a command, if the option is there.
unfoldable pub word_after : String → List String → Option String
word_after option [] = none
word_after option (word ∷ []) = none
word_after option (word ∷ next ∷ words) =
    let rest = word_after option (next ∷ words) in if word == option then some next else rest

-- The path is mounted, in the mode, at the place that the command's option names.
pub record IsMountedAt (path mode option : String) (command : List String) (volumes : List Volume)
    : Type 0 where
  pub place : String
  pub looked_for : word_after option command ≡ some place
  pub is_mounted : any (is_mount path place mode) volumes ≡ true

-- How a container's command and its mounts fit: mongod with its data and its configuration where its
-- options say, or mongos with neither mounted; and the key file at the place that ends the command.
pub record IsConsistent (w : World) (c : Option Cluster) (data_dir : String) : Type 0 where
  pub program : first_word (command_of w c) ≡ (if is_router c then "mongos" else "mongod")
  pub has_data :
      is_router c ≡ false
      → IsMountedAt data_dir "rw" "--dbpath" (command_of w c) (container_volumes c data_dir)
  pub has_configuration :
      is_router c ≡ false
      → IsMountedAt "/etc/trove/mongodb.conf" "ro" "--config"
          (command_of w c)
          (container_volumes c data_dir)
  pub has_key :
      is_blank (cluster_key c) ≡ false
      → any
          (is_mount "/etc/trove/mongodb-keyfile" (last_word "" (command_of w c)) "ro")
          (container_volumes c data_dir)
        ≡ true
  pub no_data :
      is_router c ≡ true → any (is_bound "/data/db") (container_volumes c data_dir) ≡ false
  pub no_configuration :
      is_router c ≡ true → any (is_bound "/etc/mongod.conf") (container_volumes c data_dir) ≡ false
  pub no_key :
      is_blank (cluster_key c) ≡ true
      → any (is_bound "/etc/mongodb-keyfile") (container_volumes c data_dir) ≡ false

abbrev configuration_volume : Volume
configuration_volume = record {
  path = "/etc/trove/mongodb.conf";
  bind = "/etc/mongod.conf";
  mode = "ro";
}

abbrev key_volume : Volume
key_volume = record {
  path = "/etc/trove/mongodb-keyfile";
  bind = "/etc/mongodb-keyfile";
  mode = "ro";
}

abbrev key_volumes : Option Cluster → List Volume
key_volumes c = if is_blank (cluster_key c) then [] else key_volume ∷ []
