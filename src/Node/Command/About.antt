-- ===== src/Node/Command/About.antt =====
-- node/src/command.rs: the texts that the two command lines, the node's and the relay chain's, show of
-- themselves.
use Prim.Native.String.{String, ◌++◌ as ◌<>◌}
use swarm_robotics_parachain.Common.{ℕ}

-- The texts of `SubstrateCli`. The version of the build and the authors of the package, which the
-- compiler reads from its environment, are arguments, and so is the name of the executable.
pub record About : Type 0 where
  pub impl_name : String
  pub impl_version : String
  pub description : String
  pub author : String
  pub support_url : String
  pub copyright_start_year : ℕ

abbrev pub usage : String
usage =
    "Parachain Collator Template\n\nThe command-line arguments provided first will be passed to the parachain node, while the arguments provided after -- will be passed to the relay chain node.\n\n"

module _ (impl_version authors executable_name : String) where
  abbrev pub cli_about : About
  cli_about = record {
    impl_name = "Parachain Collator Template";
    impl_version = impl_version;
    description = usage <> executable_name <> " <parachain-args> -- <relay-chain-args>";
    author = authors;
    support_url = "https://github.com/paritytech/polkadot-sdk/issues/new";
    copyright_start_year = 2020;
  }

  abbrev pub relay_chain_cli_about : About
  relay_chain_cli_about = record {
    impl_name = "Parachain Collator Template";
    impl_version = impl_version;
    description = usage <> executable_name <> " <parachain-args> -- <relay-chain-args>";
    author = authors;
    support_url = "https://github.com/paritytech/polkadot-sdk/issues/new";
    copyright_start_year = 2020;
  }
