-- ===== src/Lib.antt =====
-- Verification of cachito, the service that fetches the sources of a project and of its
-- dependencies.
--
-- The program has a web part (cachito/web), which keeps the requests in a database and serves the
-- REST API, and a worker part (cachito/workers), whose Celery tasks fetch the sources, run the package
-- managers and report back over the API. cachito/common holds what both parts read.
--
-- The files and the code they are about:
-- Packages - cachito/common/packages_data.py, the collection of resolved packages that the tasks
--   write and the API reads (PackagesData and unique_packages).
-- Requests - the states of a request in cachito/web/models.py (RequestStateMapping and
--   Request.add_state). Requests.Patch - the handler of PATCH /requests/<id> in cachito/web/api_v1.py
--   (patch_request), by which the workers report; its work on files and queues is the list of effects
--   that follow the commit, and its flush raises where the database refuses the error of a request.
-- Exclusivity - the check in cachito/web/models.py that two package managers do not work on one path
--   (_validate_package_manager_exclusivity).
-- Status - cachito/web/status.py, the status of services, workers and package managers.
-- Cleanup - cachito/workers/cleanup_job.py, which marks expired requests as stale over the API.
-- Prune - cachito/workers/prune_archives.py, the listing and deletion of stale source archives.
-- Gomod - cachito/workers/pkg_managers/gomod.py. Names and LocalDeps are the packages of a module and
--   its local replacements, Modules and Vendor the lists of modules, ListFile the lists of
--   versions, Tags the version of a module.
-- Manifest - the content manifest and the SBOM of a request: Purl is cachito/web/purl.py, Content and
--   Report are ContentManifest in cachito/web/content_manifest.py, DeepSort is deep_sort_icm of
--   cachito/web/utils.py on any JSON.
-- Pip - the requirements files of cachito/workers/pkg_managers/pip.py. Lines reads and writes a file,
--   Options splits a line and Requirement is one requirement; Items and Continuation are the grammars
--   of a line and of a file, Comments what a comment is, WrittenLine and Roundtrip what is read of a written file.
-- Yarn - cachito/workers/pkg_managers/yarn.py: Reachable is the search for the dependencies that are
--   not for development, Replace the replacement of dependencies by those in Nexus.
-- Nexus - the search for a component, its pages and its attempts, in cachito/workers/nexus.py.
-- Base - Python's texts, dictionaries, JSON values, comparisons and stable sort, with their lemmas.
--
-- A text is the list of its code points, a dictionary an association list in insertion order, and a
-- set a list. An exception is none, or a value of a type of errors where the caller can tell several
-- apart. Code outside the repository is a parameter: the answers of HTTP services and pings, the tags
-- that git lists, the package semver, the decimal digits of Unicode, the reading of times, pkg_resources, urllib, pyarn, Path.resolve,
-- PureWindowsPath and os.path.normpath.
--
-- Bounds: the search over the pages of the API in Cleanup runs on fuel, one unit for each page, since
-- the API may answer with pages for ever; fuel for as many pages as there are is enough. The search over
-- the pages of Nexus is like it, and that in Yarn has one unit for each dependency taken from the queue,
-- with a proof that enough of them end it. All other loops run over lists. The retries of the pings and
-- the attempts of Nexus are counted down.
--
-- Not modelled: the database beyond the rows that a patch changes, its migrations, authorisation, logging, metrics beyond the gauges of
-- patch_request, the start of Celery and Flask, the runs of git, go, npm, yarn, pip and bundler, HTTP
-- transport, and the Nexus scripts and uploads. npm, RubyGems and the creation of requests are not
-- modelled.
pub mod Base
pub mod Cleanup
pub mod Exclusivity
pub mod Gomod
pub mod Manifest
pub mod Nexus
pub mod Packages
pub mod Pip
pub mod Prune
pub mod Requests
pub mod Status
pub mod Yarn
