-- ===== src/Lib.antt =====
-- resource-query: a model of the scheduler's matching core, and what holds of it.
--
-- The program reads a resource graph and, for each jobspec, walks the graph depth first, scores the
-- resources that match, chooses the best of them by a policy, writes the choice to the edges, and then
-- updates the planners and the tables of the vertices; a cancellation walks the same way and takes
-- everything out again. A command loop drives this.
--
-- The files, and the code that they model:
--
--   Prelude           the names that all files share, machine integers and dictionaries
--   Run               results of code that can hang or read out of range
--   Jobspec           the data of jobspec.hpp, and its parser in jobspec.cpp (Yaml: documents, Parse)
--   Matcher           matcher_data.hpp: select_count and the table of subsystems
--   Scoring           scoring_api.hpp: evals_t (Evals) and scoring_api_t (Api)
--   ResourceData      resource_data.hpp: what the graph stores, and the colours of a walk
--   Planner           the calls of planner/planner.h that the traverser makes, as an interface; its
--                     children model planner/planner.c: Points (scheduled points and their tree), Mintime
--                     (the tree by what is left), Context (planner_t and the updates of its points),
--                     Windows (what is free over a window), Spans (adding and removing one), Api (the
--                     other public calls); Tracked is about the min-time tree and its table, and Reads,
--                     Fits, Exact, Booking, Times, First, Play and Overbook are about the calls
--   Policy            dfu_match_id_based.hpp and the callbacks of dfu_match_cb.hpp
--   Traverse          dfu_traverse_impl.cpp and dfu_traverse.cpp, by what the functions do: State (the
--                     members and the monad of a walk), Accum, Prune, Match, Resolve, Walk, Prime,
--                     Update, Remove and Traverser; Runs, Ends, Keeps, Frame and Quiet are about walks
--   Command           command.cpp and control_loop of resource-query.cpp
--   Tests             runs at fixed inputs
--
-- How the code is translated. A member function that changes the graph is a function in a state monad
-- over Store, which has the vertices, the edges, errno and the members of dfu_impl_t. The filtered graph
-- itself does not change: out_edges and target are in Env, with the matcher, the policy, the roots and
-- the libraries. A map is an association list (Dict), a pointer that may be null an Option, and an
-- unsigned integer a number with its wrap-around written out. Undefined behaviour that the code can reach,
-- such as a dereferenced end iterator, is a Fault; the overflow of a signed integer is not.
--
-- Fuel. The loops of select_count get qc + 2 rounds: cur grows or the loop never ends. The recursive walks
-- get fuel for their depth, and the parser for the nesting of its document; a theorem says how much is
-- enough. reserve has rounds for the loop over the planner's times, whose end depends on the planner. The
-- loop of avail_at takes a point from the min-time tree in each round and gets one round more than the
-- tree has points.
--
-- The planner. Its points are on a heap, by addresses, since three containers share them: the tree by time,
-- the min-time tree and the table of points that a search has put aside. The shape of the two red-black
-- trees after an insertion or an erasure (planner/rbtree.c), and the order in which a table of czmq lists
-- its keys, are parameters (Libs) of which the theorems ask only that the members in order are the right
-- ones, and the entries those of the table (IsLawful). Times and counts are int64_t in the source and the
-- reference counts of points int; here they are unbounded integers, with the conversions to unsigned and
-- back written out where the source mixes the two. free leaves the heap alone.
--
-- The traverser takes the planner as a parameter with the interface of Planner. boost's interval_set,
-- yaml-cpp's conversions, czmq, strerror and atoll are parameters too. std::sort is insertion sort.
--
-- Not modelled: planner_destroy, which frees, and the red-black trees of the planner; the graph readers and
-- writers, option parsing and the elapsed times that the commands print.
pub mod Prelude
pub mod Run
pub mod Jobspec
pub mod Matcher
pub mod Scoring
pub mod ResourceData
pub mod Planner
pub mod Policy
pub mod Traverse
pub mod Command
pub mod Tests
