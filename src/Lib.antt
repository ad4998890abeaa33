-- ===== src/Lib.antt =====
-- The commands that clean up an OpenStack project, as a verification library of this repository.
--
-- scripts/openstack/delete-project-resources.py deletes what scripts/openstack/list-project-resources.py
-- finds in a project. It reads the report of an inventory, plans one deletion for each resource in it,
-- refuses what it does not fully understand, and with --yes runs the plan and waits for what ends
-- later. Everything under Deletion models it:
--   Tables, CommandTables   the aliases, the phases, the kinds that a parent covers, the command words
--   Names                   normalised names, and the identifier of an item (_identifier)
--   Commands                Resource and command_for
--   Plan                    _resource_entries and plan_deletions
--   World                   what the command meets outside, as a parameter; _missing_output
--   Execute, Senlin         _run_openstack, delete_router, wait_for_stack_delete, execute_plan and
--                           delete_senlin_resource
--   Main                    the arguments, run_inventory, load_report, the refusals and main
-- The child modules hold proofs, named for what they show; Deletion.Tests runs the model on the reports
-- of Samples. Base has lists, texts, JSON values and dictionaries, Order the order of texts.
--
-- scripts/kolla-ansible/senlin-images/zun-capsule-profile makes each node of a cluster a Zun capsule.
-- Everything under Capsule models yggdrasil_senlin_zun_profile/capsule.py of it:
--   Session      the requests and replies, _get_capsule, _response_json, _is_not_found, the URLs
--   Validation   do_validate
--   Profile      _make_template, _wait_for_state, _delete_capsule and do_delete
--   Creation     do_create and its roll-back
--   Inspection   do_check and do_get_details
-- Balancer models capsule_loadbalance.py beside it: the address of a capsule on a pool's subnet
-- (_address_for_subnet), member_add, member_remove and the reasons that the policy reports.
-- The HTTP session, the service catalog, urljoin and the interpreter's own exceptions are the World of
-- Session. A template is a mapping in do_create, which a validated one is.
--
-- Everything under Inventory models the inventory command, scripts/openstack/list-project-resources.py:
--   Tables, Filters   the tables and the tests that read them, _text, _boolean, normalize_interface
--   Records, Catalog  endpoints from the client's list and from the catalog (parse_endpoint_list_json,
--                     _catalog_endpoints, _run_endpoint_command, discover_endpoints)
--   Selection         select_endpoints
--   Ownership         _value, _resource_attr, _project_value, _belongs_to_project
--   Related           _filter_related_resources and _exclude_default_security_group
--   Errors, Specs     the reading of failures, the resource classes and _direct_specs, _nested_specs
--   Listings          _list_all, _list_with_project_filter_fallback, _list_spec
--   Collect           BuiltinSDKProvider.collect, the nested loop on fuel: one pass for each nested
--                     specification is enough, since a pass that lists none of them is the last
--   Report            inventory: the report of all services
-- The SDK's proxy is a parameter: its registry and its list method. So is the finding of a provider
-- in Report.
--
-- scripts/openstack/trove-mongodb is the MongoDB guest of a database service. Everything under Mongo
-- models its service.py:
--   Options        MongoConfigurationManager: _merge, _normalize and _sanitize, of JSON objects
--   Configuration  _configuration_contents
--   Guest          what the agent meets outside: the container engine, mongosh, the clock, the files
--   Service        the roles of a cluster, the command, the mounts and the life of a container
--   Members        the replica set: its initialisation, and the members that it gains and loses
--   Shards         the cluster metadata, the config servers and shards of a router, cluster_complete
-- The wait for a primary and the initialisation poll on fuel as the loops below do.
--
-- A call of the outside (a subprocess, the clustering SDK, the clock, a file, the JSON parser) is a
-- field of a World that may answer by the whole history of what the run did before, so that a theorem
-- holds of every deterministic environment. A run returns, fails like an exception, or is unfinished;
-- the last stands for a loop whose fuel is used up. Fuel counts the rounds of one polling loop: since
-- each round sleeps, one more round than the wait has milliseconds is enough on a clock that goes
-- forward. Times are whole milliseconds where the source has floats.
--
-- Texts are compared as the source does, by code points; upper, lower and casefold act on ASCII
-- letters, and numbers of a report are kept as the text that the JSON library prints. The argument
-- parser is the record of its results. A loop's body is a function of its own, named for its part of
-- the source.
--
-- Not modelled: the choice of a provider and the table of the inventory command, its legacy provider,
-- which finds its calls by reflection on client libraries, the metric pollsters, the MongoDB API and
-- task manager, and the patch scripts. Ansible roles, shell scripts and dashboards are configuration
-- and have no part here.
pub mod Balancer
pub mod Base
pub mod Capsule
pub mod Deletion
pub mod Inventory
pub mod Mongo
pub mod Order
pub mod Samples
